-- ===== src/Pool/Links.antt =====
-- The routing tables agree: a handler leads to a group as often as the group has the handler.
use infly.Prelude.{
  ℕ, suc, ◌+◌, ◌-◌, ◌≤◌, ◌<◌, ◌≡◌, refl, ap, ◌∙◌, ◌⊎◌, inl, inr, true, false, Option, none, some,
  String, List, [], ◌∷◌, ◌++◌, arith, ite, text_dec,
}
use infly.Prelude.Exec.{ok, raise}
use infly.Dict.{Dict, get, insert, contains, get-insert, get-remove}
use infly.Core.Errors.{Outcome}
use infly.Config.{WorkerGroup}
use infly.Pool.State.{or_empty}
use infly.Pool.Assignment.{remove_first}
use infly.Pool.Groups.{append_group}
use infly.Pool.Unloading.{set_or_drop, is_listed, unlink_group}
use infly.Pool.Search.{AreKnown}

-- How often a name stands in a list.
unfoldable pub occurs : String → List String → ℕ
occurs name [] = 0
occurs name (x ∷ xs) = let rest = occurs name xs in ite (text_dec x name) (suc rest) rest

abbrev pub Routes : Type 0
Routes = Dict (List String)

pub record TablesAreLinked (groups : Dict WorkerGroup) (group_handlers handler_groups : Routes)
    : Type 0 where
  pub tabled : (g : String) → contains g groups ≡ contains g group_handlers
  pub linked :
      (h g : String)
      → occurs g (or_empty (get h handler_groups)) ≡ occurs h (or_empty (get g group_handlers))

pub occurs_nil : (name : String) → occurs name [] ≡ 0
unfolding occurs
occurs_nil name = refl

known_of_occurs :
    (groups : Dict WorkerGroup) (gs : List String)
    → ((g : String) → (occurs g gs ≡ 0) ⊎ (contains g groups ≡ true))
    → AreKnown groups gs
unfolding occurs
known_of_occurs groups [] f = tt
known_of_occurs groups (g ∷ gs) f =
    (ground (arith, f g), known_of_occurs groups gs (λ x. ground (arith, f x)))

-- A handler leads to groups of the table only.
pub routes_known :
    {groups : Dict WorkerGroup} {gh hg : Routes} (h : String)
    → TablesAreLinked groups gh hg
    → AreKnown groups (or_empty (get h hg))
routes_known {groups} {gh} {hg} h l =
    known_of_occurs groups (or_empty (get h hg)) (λ g. go g (get g gh) refl)
  where
    go :
        (g : String) (o : Option (List String))
        → get g gh ≡ o
        → (occurs g (or_empty (get h hg)) ≡ 0) ⊎ (contains g groups ≡ true)
    go g none e =
        inl
          (l.linked h g ∙ ap (λ (x : Option (List String)). occurs h (or_empty x)) e ∙ occurs_nil h)
    go g (some names) e = inr (l.tabled g ∙ ground arith)

occurs-append_one :
    (name g : String) (xs : List String)
    → occurs name (xs ++ g ∷ []) ≡ occurs name xs + ite (text_dec g name) 1 0
unfolding occurs
occurs-append_one name g [] = ground arith
occurs-append_one name g (x ∷ xs) = ground (arith, occurs-append_one name g xs)

occurs-cons :
    (name x : String) (xs : List String)
    → occurs name (x ∷ xs) ≡ ite (text_dec x name) 1 0 + occurs name xs
unfolding occurs
occurs-cons name x xs = ground arith

occurs-append_group :
    (g : String) (names : List String) (hg : Routes) (h name : String)
    → occurs name (or_empty (get h (append_group g names hg)))
      ≡ occurs name (or_empty (get h hg)) + ite (text_dec g name) (occurs h names) 0
unfolding append_group
occurs-append_group g [] hg h name = ground (arith, occurs_nil h)
occurs-append_group g (n ∷ names) hg h name =
    let next = insert n (or_empty (get n hg) ++ g ∷ []) hg in
    ground (
      arith,
      occurs-append_group g names next h name,
      get-insert n h (or_empty (get n hg) ++ g ∷ []) hg,
      occurs-append_one name g (or_empty (get n hg)),
      occurs-cons h n names,
    )

-- A new group enters the tables.
pub publish-TablesAreLinked :
    (group : WorkerGroup) (names : List String) (groups : Dict WorkerGroup) (gh hg : Routes)
    → contains group.name groups ≡ false
    → TablesAreLinked groups gh hg
    → TablesAreLinked
        (insert group.name group groups)
        (insert group.name names gh)
        (append_group group.name names hg)
publish-TablesAreLinked group names groups gh hg new l = record {
  tabled = λ g.
      ground
        (arith, l.tabled g, get-insert group.name g group groups, get-insert group.name g names gh);
  linked = λ h g. ground (
    arith,
    occurs-append_group group.name names hg h g,
    l.linked h g,
    l.tabled g,
    get-insert group.name g names gh,
    occurs_nil h,
  );
}

occurs-remove_first :
    (name g : String) (xs : List String)
    → occurs name (remove_first g xs) ≡ occurs name xs - ite (text_dec g name) 1 0
unfolding occurs remove_first
occurs-remove_first name g [] = ground arith
occurs-remove_first name g (x ∷ xs) = ground (arith, occurs-remove_first name g xs)

get-set_or_drop :
    (h j : String) (xs : List String) (d : Routes)
    → or_empty (get j (set_or_drop h xs d)) ≡ ite (text_dec h j) xs (or_empty (get j d))
unfolding set_or_drop
get-set_or_drop h j [] d = ground (arith, get-remove h j d)
get-set_or_drop h j (x ∷ xs) d = ground (arith, get-insert h j (x ∷ xs) d)

listed_of_occurs : (g : String) (xs : List String) → 0 < occurs g xs → is_listed g xs ≡ true
unfolding occurs is_listed
listed_of_occurs g [] h = absurd (omega arith)
listed_of_occurs g (x ∷ xs) h = ground (arith, listed_of_occurs g xs)

abbrev pub Unlinked : String → List String → Routes → Outcome (Unit {0}) × Routes → Type 0
Unlinked g names hg (raise e, hg') = ⊥
Unlinked g names hg (ok t, hg') =
    (h name : String)
    → occurs name (or_empty (get h hg'))
      ≡ occurs name (or_empty (get h hg)) - ite (text_dec g name) (occurs h names) 0

-- The group is taken out once for each of its handlers, and each is there.
pub unlink_group-Unlinked :
    (g : String) (names : List String) (hg : Routes)
    → ((h : String) → occurs h names ≤ occurs g (or_empty (get h hg)))
    → Unlinked g names hg (unlink_group g names hg)
unfolding unlink_group
unlink_group-Unlinked g [] hg enough = λ h name. ground (arith, occurs_nil h)
unlink_group-Unlinked g (n ∷ names) hg enough =
    let listed = or_empty (get n hg) in
    let next = set_or_drop n (remove_first g listed) hg in
    let there : is_listed g listed ≡ true =
      listed_of_occurs g listed (ground (arith, enough n, occurs-cons n n names)) in
    rw there (
      go next (unlink_group g names next)
        (λ h name. ground (
          arith,
          get-set_or_drop n h (remove_first g listed) hg,
          occurs-remove_first name g listed,
        ))
        (unlink_group-Unlinked g names next (λ h. ground (
          arith,
          enough h,
          occurs-cons h n names,
          get-set_or_drop n h (remove_first g listed) hg,
          occurs-remove_first g g listed,
        ))))
  where
    go :
        (next : Routes) (r : Outcome (Unit {0}) × Routes)
        → ((h name : String)
            → occurs name (or_empty (get h next))
              ≡ occurs name (or_empty (get h hg))
                - ite (text_dec g name) (ite (text_dec n h) 1 0) 0)
        → Unlinked g names next r
        → Unlinked g (n ∷ names) hg r
    go next (raise e, hg') one rest = rest
    go next (ok t, hg') one rest =
        λ h name. ground (arith, one h name, rest h name, occurs-cons h n names)
