-- ===== src/Pool/Taking.antt =====
-- `_take_worker_futures_locked` takes the tasks of one worker and no other.
use infly.Prelude.{
  ℕ, ◌<◌, ◌≡◌, refl, ◌⊎◌, inl, inr, Bool, true, false, ◌||◌, Option, none, some, String, List, [],
  ◌∷◌, ◌++◌, arith, All, Bool-cases, ◌==◌, ite, text_dec, if◌then◌else◌,
}
use infly.Dict.{Dict, get, IsUnique, get-remove, remove-IsUnique}
use infly.Core.Errors.{Exception}
use infly.Pool.State.{is_in, Assignment, same_assignment, Promises, is_done, fail_futures}
use infly.Pool.Supervision.{Taken, take_one, take_owned, also_failed}
use infly.Pool.Ledger.{FutureIsBelow, fail_futures_done}

unfoldable pub owned_in : String → Assignment → List (String × Assignment) → Bool
owned_in k a [] = false
owned_in k a ((j, o) ∷ items) = ite (text_dec j k) (same_assignment o a) false || owned_in k a items

abbrev pub owned_by : Assignment → Option Assignment → Bool
owned_by a none = false
owned_by a (some o) = same_assignment o a

owned_in_absent :
    (k : String) (a : Assignment) (d : Dict Assignment) → get k d ≡ none → owned_in k a d ≡ false
unfolding owned_in get
owned_in_absent k a [] h = refl
owned_in_absent k a ((j, o) ∷ d) h = ground (arith, owned_in_absent k a d)

pub owned_in-get :
    (k : String) (a : Assignment) (d : Dict Assignment)
    → IsUnique d
    → owned_in k a d ≡ owned_by a (get k d)
unfolding owned_in get
owned_in-get k a [] u = refl
owned_in-get k a ((j, o) ∷ d) u = ground (arith, owned_in-get k a d u.1, owned_in_absent k a d)

is_in-append_left : (i : ℕ) (xs ys : List ℕ) → is_in i xs ≡ true → is_in i (xs ++ ys) ≡ true
unfolding is_in
is_in-append_left i [] ys h = cc
is_in-append_left i (x ∷ xs) ys h = ground (arith, is_in-append_left i xs ys)

is_in-append_right : (i : ℕ) (xs ys : List ℕ) → is_in i ys ≡ true → is_in i (xs ++ ys) ≡ true
unfolding is_in
is_in-append_right i [] ys h = h
is_in-append_right i (x ∷ xs) ys h = ground (arith, is_in-append_right i xs ys h)

pub is_in-append :
    (i : ℕ) (xs ys : List ℕ) → (is_in i xs ≡ true) ⊎ (is_in i ys ≡ true) → is_in i (xs ++ ys) ≡ true
is_in-append i xs ys (inl h) = is_in-append_left i xs ys h
is_in-append i xs ys (inr h) = is_in-append_right i xs ys h

is_in_self : (i : ℕ) → is_in i (i ∷ []) ≡ true
unfolding is_in
is_in_self i = ground arith

in_all :
    (i : ℕ) (gs : List ℕ) (ps : Promises)
    → All (λ f. is_done f ps.settled ≡ true) gs
    → is_in i gs ≡ true
    → is_done i ps.settled ≡ true
unfolding is_in
in_all i [] ps a h = cc
in_all i (g ∷ gs) ps a h = elim (Bool-cases (g == i)) [
  | inl e ↦ let same : g ≡ i = ground arith in rw same at a.0
  | inr n ↦ in_all i gs ps a.1 (ground arith)
]

pub fail_futures-is_in :
    (i : ℕ) (fs : List ℕ) (e : Exception) (ps : Promises)
    → is_in i fs ≡ true
    → is_done i (fail_futures fs e ps).settled ≡ true
fail_futures-is_in i fs e ps h = in_all i fs (fail_futures fs e ps) (fail_futures_done fs e ps) h

pub All-append {ℓ κ} :
    {A : Type ℓ} (P : A → Type κ) (xs ys : List A) → All P xs → All P ys → All P (xs ++ ys)
All-append P [] ys a b = b
All-append P (x ∷ xs) ys a b = (a.0, All-append P xs ys a.1 b)

-- What one run of the loop does to the tables.
pub record TookOwned (a : Assignment) (items : List (String × Assignment)) (t t' : Taken)
    : Type 0 where
  pub assignments :
      (k : String)
      → get k t'.assignments ≡ (if owned_in k a items then none else get k t.assignments)
  pub futures :
      (k : String) → get k t'.futures ≡ (if owned_in k a items then none else get k t.futures)
  pub still : (i : ℕ) → is_in i t.failed ≡ true → is_in i t'.failed ≡ true
  pub failed :
      (k : String) (i : ℕ)
      → owned_in k a items ≡ true
      → get k t.futures ≡ some i
      → is_in i t'.failed ≡ true
  pub unique : IsUnique t.assignments → IsUnique t'.assignments
  pub waiting : IsUnique t.futures → IsUnique t'.futures
  pub below :
      (n : ℕ)
      → ((k : String) → FutureIsBelow (get k t.futures) n)
      → All (λ f. f < n) t.failed
      → All (λ f. f < n) t'.failed

take_one-still :
    (k : String) (t : Taken) (i : ℕ)
    → is_in i t.failed ≡ true
    → is_in i (take_one k t).failed ≡ true
unfolding take_one
take_one-still k t i h = go (get k t.futures)
  where
    go : (o : Option ℕ) → is_in i (also_failed o t.failed) ≡ true
    go none = h
    go (some f) = is_in-append i t.failed (f ∷ []) (inl h)

take_one-failed :
    (k : String) (t : Taken) (i : ℕ)
    → get k t.futures ≡ some i
    → is_in i (take_one k t).failed ≡ true
unfolding take_one
take_one-failed k t i h = rw h (is_in-append i t.failed (i ∷ []) (inr (is_in_self i)))

take_one-below :
    (k : String) (t : Taken) (n : ℕ)
    → ((k : String) → FutureIsBelow (get k t.futures) n)
    → All (λ f. f < n) t.failed
    → All (λ f. f < n) (take_one k t).failed
unfolding take_one
take_one-below k t n w a = go (get k t.futures) (w k)
  where
    go : (o : Option ℕ) → FutureIsBelow o n → All (λ f. f < n) (also_failed o t.failed)
    go none b = a
    go (some f) b = All-append (λ f. f < n) t.failed (f ∷ []) a (b, tt)

take_one-futures :
    (k j : String) (t : Taken)
    → get j (take_one k t).futures ≡ ite (text_dec k j) none (get j t.futures)
unfolding take_one
take_one-futures k j t = get-remove k j t.futures

take_one-assignments :
    (k j : String) (t : Taken)
    → get j (take_one k t).assignments ≡ ite (text_dec k j) none (get j t.assignments)
unfolding take_one
take_one-assignments k j t = get-remove k j t.assignments

take_one-IsUnique :
    (k : String) (t : Taken) → IsUnique t.assignments → IsUnique (take_one k t).assignments
unfolding take_one
take_one-IsUnique k t u = remove-IsUnique k t.assignments u

take_one-waiting : (k : String) (t : Taken) → IsUnique t.futures → IsUnique (take_one k t).futures
unfolding take_one
take_one-waiting k t u = remove-IsUnique k t.futures u

owned_in-cons :
    (k : String) (a : Assignment) (j : String) (o : Assignment) (items : List (String × Assignment))
    → owned_in k a ((j, o) ∷ items)
      ≡ (ite (text_dec j k) (same_assignment o a) false || owned_in k a items)
unfolding owned_in
owned_in-cons k a j o items = refl

pub take_owned-TookOwned :
    (a : Assignment) (items : List (String × Assignment)) (t : Taken)
    → TookOwned a items t (take_owned a items t)
unfolding take_owned owned_in
take_owned-TookOwned a [] t = record {
  assignments = λ k. refl;
  futures = λ k. refl;
  still = λ i h. h;
  failed = λ k i h e. cc;
  unique = λ u. u;
  waiting = λ u. u;
  below = λ n w b. b;
}
take_owned-TookOwned a ((j, o) ∷ items) t = elim (Bool-cases (same_assignment o a)) [
  | inl own ↦
      let ih = take_owned-TookOwned a items (take_one j t) in
      rw own (record {
        assignments = λ k.
            ground (
              arith,
              own,
              ih.assignments k,
              take_one-assignments j k t,
              owned_in-cons k a j o items,
            );
        futures = λ k.
            ground (arith, own, ih.futures k, take_one-futures j k t, owned_in-cons k a j o items);
        still = λ i h. ih.still i (take_one-still j t i h);
        failed = λ k i h e. ground (
          arith,
          own,
          owned_in-cons k a j o items,
          ih.failed k i,
          ih.still i,
          take_one-failed j t i,
          take_one-futures j k t,
        );
        unique = λ u. ih.unique (take_one-IsUnique j t u);
        waiting = λ u. ih.waiting (take_one-waiting j t u);
        below = λ n w b.
            ih.below n (λ k. ground (arith, w k, take_one-futures j k t))
              (take_one-below j t n w b);
      })
  | inr foreign ↦
      let ih = take_owned-TookOwned a items t in
      rw foreign (record {
        assignments = λ k. ground (arith, foreign, ih.assignments k, owned_in-cons k a j o items);
        futures = λ k. ground (arith, foreign, ih.futures k, owned_in-cons k a j o items);
        still = ih.still;
        failed = λ k i h e. ground (arith, foreign, owned_in-cons k a j o items, ih.failed k i);
        unique = ih.unique;
        waiting = ih.waiting;
        below = ih.below;
      })
]
