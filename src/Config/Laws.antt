-- ===== src/Config/Laws.antt =====
-- What an object of infly/runtime/config.py is known to satisfy.
use infly.Prelude.{
  ◌≤◌, ◌<◌, ◌+◌, String, ◌≡◌, refl, ◌≢◌, ◌↔◌, true, false, List, [], ◌∷◌, All, length, arith,
  Option-cases, none, inl, inr,
}
use infly.Prelude.Exec.{ok}
use infly.Prelude.Text.{is_blank}
use infly.Dict.{Names, get, add, get-insert, length-insert_new, length-insert_old}
use infly.Config.{
  WorkerSafetyPolicy, WorkerGroup, GroupArguments, any_blank, add_all, has_duplicates, make_policy,
  make_group, SafetyArgument, SafetyArguments, policy, arguments, foreign, is_mode, coerce_safety,
}

-- No text stands twice in the list.
abbrev pub IsDistinct : List String → Type 0
IsDistinct [] = Unit
IsDistinct (x ∷ xs) = All (λ y. x ≢ y) xs × IsDistinct xs

length-add_all-le : (xs : List String) (s : Names) → length (add_all xs s) ≤ length s + length xs
unfolding add_all
length-add_all-le [] s = omega arith
length-add_all-le (x ∷ xs) s = elim (Option-cases (get x s)) [
  | inl new ↦ omega (arith, length-add_all-le xs (add x s), length-insert_new x tt s new)
  | inr (u, old) ↦ omega (arith, length-add_all-le xs (add x s), length-insert_old x tt u s old)
]

All-absent :
    (x : String) (s : Names) (ys : List String)
    → get x s ≡ none
    → All (λ y. get y (add x s) ≡ none) ys
    → All (λ y. get y s ≡ none) ys × All (λ y. x ≢ y) ys
All-absent x s [] h a = (tt, tt)
All-absent x s (y ∷ ys) h a =
    let rest = All-absent x s ys h a.1 in
    (
      (ground (arith, get-insert x y tt s, a.0), rest.0),
      (λ e. ground (arith, get-insert x y tt s, a.0), rest.1),
    )

IsDistinct-of_length :
    (xs : List String) (s : Names)
    → length (add_all xs s) ≡ length s + length xs
    → All (λ x. get x s ≡ none) xs × IsDistinct xs
unfolding add_all
IsDistinct-of_length [] s h = (tt, tt)
IsDistinct-of_length (x ∷ xs) s h = elim (Option-cases (get x s)) [
  | inl new ↦
      let ih = IsDistinct-of_length xs (add x s) (omega (arith, length-insert_new x tt s new)) in
      let both = All-absent x s xs new ih.0 in ((new, both.0), (both.1, ih.1))
  | inr (u, old) ↦
      absurd (omega (arith, length-add_all-le xs (add x s), length-insert_old x tt u s old))
]

All-fresh :
    (x : String) (s : Names) (ys : List String)
    → All (λ y. get y s ≡ none) ys
    → All (λ y. x ≢ y) ys
    → All (λ y. get y (add x s) ≡ none) ys
All-fresh x s [] a d = tt
All-fresh x s (y ∷ ys) a d =
    (ground (arith, get-insert x y tt s, a.0, d.0), All-fresh x s ys a.1 d.1)

length_of_distinct :
    (xs : List String) (s : Names)
    → All (λ x. get x s ≡ none) xs
    → IsDistinct xs
    → length (add_all xs s) ≡ length s + length xs
unfolding add_all
length_of_distinct [] s a d = omega arith
length_of_distinct (x ∷ xs) s a d = omega (
  arith,
  length_of_distinct xs (add x s) (All-fresh x s xs a.1 d.0) d.1,
  length-insert_new x tt s a.0,
)

All-nil : (xs : List String) → All (λ x. get {V = Unit {0}} x [] ≡ none) xs
unfolding get
All-nil [] = tt
All-nil (x ∷ xs) = (refl, All-nil xs)

-- The length test finds a name that stands twice exactly when there is one.
pub has_duplicates-IsDistinct : (xs : List String) → (has_duplicates xs ≡ false) ↔ IsDistinct xs
unfolding has_duplicates
has_duplicates-IsDistinct xs = (
  λ h. (IsDistinct-of_length xs [] (ground arith)).1,
  λ d. ground (arith, length_of_distinct xs [] (All-nil xs) d),
)

-- The set of modes is closed: a policy that was built has one of the three.
pub record PolicyIsValid (p : WorkerSafetyPolicy) : Type 0 where
  pub known_mode : is_mode p.mode ≡ true
  pub some_window : 0 < p.restart_window

abbrev SafetyIsValid : SafetyArgument → Type 0
SafetyIsValid (policy p) = PolicyIsValid p
SafetyIsValid _ = Unit

pub record GroupIsValid (g : WorkerGroup) : Type 0 where
  pub named : is_blank g.name ≡ false
  pub some_process : 1 ≤ g.process_count
  pub handlers_named : any_blank g.handlers ≡ false
  pub distinct : IsDistinct g.handlers
  pub safe : PolicyIsValid g.safety

pub make_policy-IsValid :
    (a : SafetyArguments) {p : WorkerSafetyPolicy} → make_policy a ≡ ok p → PolicyIsValid p
unfolding make_policy
make_policy-IsValid a h = ground arith

coerce_safety-IsValid :
    (s : SafetyArgument) {p : WorkerSafetyPolicy}
    → SafetyIsValid s
    → coerce_safety s ≡ ok p
    → PolicyIsValid p
unfolding coerce_safety
coerce_safety-IsValid (policy q) v h = ground arith
coerce_safety-IsValid (arguments a) v h = make_policy-IsValid a h
coerce_safety-IsValid foreign v h = ground arith

-- A group that the constructor returns, given no policy or a valid one or the arguments of one, is
-- valid and has the name and the handlers that were given.
pub make_group-IsValid :
    (a : GroupArguments) {g : WorkerGroup}
    → SafetyIsValid a.safety
    → make_group a ≡ ok g
    → GroupIsValid g × (g.name ≡ a.name) × (g.handlers ≡ a.handlers)
unfolding make_group
make_group-IsValid a v h =
    ground (arith, (has_duplicates-IsDistinct a.handlers).0, coerce_safety-IsValid a.safety v)
