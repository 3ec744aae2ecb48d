-- ===== src/Pool/Fuel.antt =====
-- The search of `execute` over the groups ends, with one round for each group at most.
use infly.Prelude.{
  ℕ, zero, suc, ◌+◌, ◌≤◌, ◌≡◌, refl, Bool, true, false, Option, none, some, String, List, [], ◌∷◌,
  arith, All, if◌then◌else◌, if_ind, length,
}
use infly.Prelude.Exec.{ok, raise, and_then}
use infly.Prelude.Int.{ℤ}
use infly.Dict.{Dict, get, keys}
use infly.Config.{WorkerGroup}
use infly.Core.Errors.{Outcome}
use infly.Core.Contracts.{TaskRequest}
use infly.Pool.State.{Pool, Worker, System, or_zero}
use infly.Pool.Routing.{
  Ranked, ranked, rank_all, highest, ranks_above, take_highest, select_group, ordered_workers,
  weights_of, add_weights, total, index_of,
}
use infly.Pool.Assignment.{remove_first, try_workers, try_group, try_groups}
use infly.Pool.Unloading.{is_listed}

-- A ranked group of the list.
abbrev RanksListed : List String → Outcome (List Ranked) → Type 0
RanksListed all (raise e) = Unit {0}
RanksListed all (ok rs) = All (λ r. is_listed r.name all ≡ true) rs

rank_all-RanksListed :
    (groups : Dict WorkerGroup) (smooth : Dict ℤ) (all gs : List String)
    → All (λ g. is_listed g all ≡ true) gs
    → RanksListed all (rank_all groups smooth gs)
unfolding rank_all ranked
rank_all-RanksListed groups smooth all [] a = tt
rank_all-RanksListed groups smooth all (g ∷ gs) a =
    go (index_of g (keys groups)) (rank_all groups smooth gs)
      (rank_all-RanksListed groups smooth all gs a.1)
  where
    go :
        (o : Option ℕ) (r : Outcome (List Ranked))
        → RanksListed all r
        → RanksListed all (ranked g (or_zero (get g smooth)) o r)
    go none r k = tt
    go (some i) (raise x) k = tt
    go (some i) (ok rs) k = (a.0, k)

highest_listed :
    (all : List String) (best : Ranked) (rs : List Ranked)
    → is_listed best.name all ≡ true
    → All (λ r. is_listed r.name all ≡ true) rs
    → is_listed (highest best rs).name all ≡ true
unfolding highest
highest_listed all best [] b a = b
highest_listed all best (r ∷ rs) b a =
    highest_listed all (if ranks_above r best then r else best) rs
      (if_ind (λ (x : Ranked). is_listed x.name all ≡ true) (ranks_above r best) (λ _. a.0)
        (λ _. b))
      a.1

listed_behind :
    (x : String) (all gs : List String)
    → All (λ g. is_listed g all ≡ true) gs
    → All (λ g. is_listed g (x ∷ all) ≡ true) gs
unfolding is_listed
listed_behind x all [] a = tt
listed_behind x all (g ∷ gs) a = (ground arith, listed_behind x all gs a.1)

all_listed : (gs : List String) → All (λ g. is_listed g gs ≡ true) gs
unfolding is_listed
all_listed [] = tt
all_listed (g ∷ gs) = (ground arith, listed_behind g gs gs (all_listed gs))

abbrev NameListed : List String → Outcome String × Pool → Type 0
NameListed gs (raise e, p) = Unit {0}
NameListed gs (ok h, p) = is_listed h gs ≡ true

select_group-NameListed :
    (sys : System) (gs : List String) (p : Pool) → NameListed gs (select_group sys gs p)
unfolding select_group take_highest
select_group-NameListed sys gs p =
    let weights = weights_of sys p gs [] in
    let smooth = add_weights weights p.smooth_weights in
    go (rank_all p.groups smooth gs) (total weights) (record p { smooth_weights = smooth })
      (rank_all-RanksListed p.groups smooth gs gs (all_listed gs))
  where
    go :
        (r : Outcome (List Ranked)) (n : ℕ) (q : Pool)
        → RanksListed gs r
        → NameListed gs (and_then r (take_highest n) q)
    go (raise e) n q a = tt
    go (ok []) n q a = tt
    go (ok (r ∷ rs)) n q a = highest_listed gs r rs a.0 a.1

abbrev RoundListed : List String → Outcome (Bool × String) × Pool → Type 0
RoundListed gs (raise e, p) = Unit {0}
RoundListed gs (ok (taken, h), p) = is_listed h gs ≡ true

try_group-RoundListed :
    (sys : System) (request : TaskRequest) (gs : List String) (p : Pool)
    → RoundListed gs (try_group sys request gs p)
unfolding try_group
try_group-RoundListed sys request gs p =
    go (select_group sys gs p) (select_group-NameListed sys gs p)
  where
    asked :
        (h : String) (p' : Pool) (r : Outcome (List Worker))
        → is_listed h gs ≡ true
        → RoundListed gs (
            and_then r
              (λ ws p''.
                let (taken, after) = try_workers sys h request ws p'' in (ok (taken, h), after))
              p')
    asked h p' (raise e) l = tt
    asked h p' (ok ws) l = l

    go :
        (q : Outcome String × Pool)
        → NameListed gs q
        → RoundListed gs (
            and_then q.0
              (λ h p'.
                and_then
                  (ordered_workers sys h p')
                  (λ ws p''.
                    let (taken, after) = try_workers sys h request ws p'' in (ok (taken, h), after))
                  p')
              q.1)
    go (raise e, p') l = tt
    go (ok h, p') l = asked h p' (ordered_workers sys h p') l

length-remove_first :
    (h : String) (gs : List String)
    → is_listed h gs ≡ true
    → length (remove_first h gs) + 1 ≡ length gs
unfolding remove_first is_listed
length-remove_first h [] l = cc
length-remove_first h (g ∷ gs) l = ground (arith, length-remove_first h gs)

-- Any two amounts of fuel that are at least the number of the groups left give the same result, on
-- every pool: with as many rounds as groups the loop of `execute` has ended by itself.
pub try_groups_enough :
    (m n : ℕ) (sys : System) (request : TaskRequest) (gs : List String) (p : Pool)
    → length gs ≤ m
    → length gs ≤ n
    → try_groups m sys request gs p ≡ try_groups n sys request gs p
unfolding try_groups
try_groups_enough zero zero sys request gs p a b = refl
try_groups_enough zero (suc n) sys request [] p a b = refl
try_groups_enough zero (suc n) sys request (g ∷ gs) p a b = absurd (omega arith)
try_groups_enough (suc m) zero sys request [] p a b = refl
try_groups_enough (suc m) zero sys request (g ∷ gs) p a b = absurd (omega arith)
try_groups_enough (suc m) (suc n) sys request [] p a b = refl
try_groups_enough (suc m) (suc n) sys request (g ∷ gs) p a b =
    go (try_group sys request (g ∷ gs) p) (try_group-RoundListed sys request (g ∷ gs) p)
      (λ hs q c d. try_groups_enough m n sys request hs q c d)
  where
    Same : Type 0
    Same =
        (hs : List String) (q : Pool)
        → length hs ≤ m
        → length hs ≤ n
        → try_groups m sys request hs q ≡ try_groups n sys request hs q

    ended :
        (taken : Bool) (h : String) (q : Pool)
        → is_listed h (g ∷ gs) ≡ true
        → Same
        → (if taken
              then (λ s. (ok true, s))
              else try_groups m sys request (remove_first h (g ∷ gs)))
            q
          ≡ (if taken
                then (λ s. (ok true, s))
                else try_groups n sys request (remove_first h (g ∷ gs)))
              q
    ended true h q l same = refl
    ended false h q l same =
        let shorter = length-remove_first h (g ∷ gs) l in
        same (remove_first h (g ∷ gs)) q (omega (arith, shorter, a)) (omega (arith, shorter, b))

    go :
        (q : Outcome (Bool × String) × Pool)
        → RoundListed (g ∷ gs) q
        → Same
        → and_then q.0
            (λ outcome.
              if outcome.0
              then (λ s. (ok true, s))
              else try_groups m sys request (remove_first outcome.1 (g ∷ gs)))
            q.1
          ≡ and_then q.0
              (λ outcome.
                if outcome.0
                then (λ s. (ok true, s))
                else try_groups n sys request (remove_first outcome.1 (g ∷ gs)))
              q.1
    go (raise e, q) l same = refl
    go (ok (taken, h), q) l same = ended taken h q l same
