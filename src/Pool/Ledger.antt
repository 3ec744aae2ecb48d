-- ===== src/Pool/Ledger.antt =====
-- The futures: none is lost, and none is set twice.
use infly.Prelude.{
  ℕ, ◌+◌, ◌≤◌, ◌<◌, ◌≡◌, ◌≢◌, refl, sym, ◌∙◌, ◌⊎◌, inl, inr, true, false, Option, none, some,
  String, List, [], ◌∷◌, arith, All, AllPairs, Bool-cases, ◌==◌,
}
use infly.Prelude.Exec.{raise}
use infly.Dict.{Dict, get, insert, get-insert}
use infly.Core.Errors.{Exception, Outcome}
use infly.Core.Contracts.{TaskResult}
use infly.Pool.State.{is_in, Promises, is_done, settle, settle_once, fail_futures}

-- Every future that was set exists, and none was set twice.
pub record PromisesAreValid (ps : Promises) : Type 0 where
  pub below : All (λ e. e.0 < ps.created) ps.settled
  pub once : AllPairs (λ d e. d.0 ≢ e.0) ps.settled

differ_of_undone :
    (i : ℕ) (es : List (ℕ × Outcome TaskResult)) → is_done i es ≡ false → All (λ e. i ≢ e.0) es
unfolding is_done
differ_of_undone i [] h = tt
differ_of_undone i ((j, o) ∷ es) h = (λ e. ground arith, differ_of_undone i es (ground arith))

pub settle_once-PromisesAreValid :
    (i : ℕ) (o : Outcome TaskResult) (ps : Promises)
    → i < ps.created
    → PromisesAreValid ps
    → PromisesAreValid (settle_once i o ps)
unfolding settle_once
settle_once-PromisesAreValid i o ps h v = elim (Bool-cases (is_done i ps.settled)) [
  | inl done ↦ rw done v
  | inr open_ ↦
      rw open_
        (record { below = (h, v.below); once = (differ_of_undone i ps.settled open_, v.once) })
]

-- What `ps'` adds to `ps`: ends of futures, and futures that are abandoned.
pub record Extends (ps ps' : Promises) : Type 0 where
  pub created : ps'.created ≡ ps.created
  pub still : (i : ℕ) → is_done i ps.settled ≡ true → is_done i ps'.settled ≡ true
  pub lost : (i : ℕ) → is_in i ps.abandoned ≡ true → is_in i ps'.abandoned ≡ true

pub Extends-refl : (ps : Promises) → Extends ps ps
Extends-refl ps = record { created = refl; still = λ i h. h; lost = λ i h. h }

pub Extends-trans : (a b c : Promises) → Extends a b → Extends b c → Extends a c
Extends-trans a b c x y = record {
  created = y.created ∙ x.created;
  still = λ i h. y.still i (x.still i h);
  lost = λ i h. y.lost i (x.lost i h);
}

pub settle_once-Extends :
    (i : ℕ) (o : Outcome TaskResult) (ps : Promises) → Extends ps (settle_once i o ps)
unfolding settle_once is_done
settle_once-Extends i o ps = record {
  created = ground arith;
  still = λ j h. ground arith;
  lost = λ j h. ground arith;
}

pub settle_once_done :
    (i : ℕ) (o : Outcome TaskResult) (ps : Promises) → is_done i (settle_once i o ps).settled ≡ true
unfolding settle_once is_done
settle_once_done i o ps = ground arith

pub fail_futures-Extends :
    (fs : List ℕ) (e : Exception) (ps : Promises) → Extends ps (fail_futures fs e ps)
unfolding fail_futures
fail_futures-Extends [] e ps = Extends-refl ps
fail_futures-Extends (f ∷ fs) e ps =
    Extends-trans ps (settle_once f (raise e) ps) (fail_futures fs e (settle_once f (raise e) ps))
      (settle_once-Extends f (raise e) ps) (fail_futures-Extends fs e (settle_once f (raise e) ps))

pub fail_futures_done :
    (fs : List ℕ) (e : Exception) (ps : Promises)
    → All (λ f. is_done f (fail_futures fs e ps).settled ≡ true) fs
unfolding fail_futures
fail_futures_done [] e ps = tt
fail_futures_done (f ∷ fs) e ps =
    let next = settle_once f (raise e) ps in
    (
      (fail_futures-Extends fs e next).still f (settle_once_done f (raise e) ps),
      fail_futures_done fs e next,
    )

All_below : (n m : ℕ) (fs : List ℕ) → n ≡ m → All (λ f. f < n) fs → All (λ f. f < m) fs
All_below n m [] e a = tt
All_below n m (f ∷ fs) e a = (omega arith, All_below n m fs e a.1)

pub fail_futures-PromisesAreValid :
    (fs : List ℕ) (e : Exception) (ps : Promises)
    → All (λ f. f < ps.created) fs
    → PromisesAreValid ps
    → PromisesAreValid (fail_futures fs e ps)
unfolding fail_futures
fail_futures-PromisesAreValid [] e ps a v = v
fail_futures-PromisesAreValid (f ∷ fs) e ps a v =
    fail_futures-PromisesAreValid fs e (settle_once f (raise e) ps)
      (All_below ps.created (settle_once f (raise e) ps).created fs
        (sym (settle_once-Extends f (raise e) ps).created) a.1)
      (settle_once-PromisesAreValid f (raise e) ps a.0 v)

abbrev pub FutureIsBelow : Option ℕ → ℕ → Type 0
FutureIsBelow none n = Unit {0}
FutureIsBelow (some i) n = i < n

-- Where a future is: not made yet, done, waiting under a task, or abandoned.
abbrev pub Kept : ℕ → Dict ℕ → Promises → Type 0
Kept i futures ps =
    (ps.created ≤ i)
    ⊎ ((is_done i ps.settled ≡ true)
        ⊎ (((k : String) × (get k futures ≡ some i)) ⊎ (is_in i ps.abandoned ≡ true)))

-- Every future that was made is done, waits or is abandoned, and none was set twice.
pub record LedgerIsValid (futures : Dict ℕ) (ps : Promises) : Type 0 where
  pub promises : PromisesAreValid ps
  pub waiting : (k : String) → FutureIsBelow (get k futures) ps.created
  pub kept : (i : ℕ) → Kept i futures ps

abbrev pub DoneIfAny : Option ℕ → Promises → Type 0
DoneIfAny none ps = Unit {0}
DoneIfAny (some i) ps = is_done i ps.settled ≡ true

-- What has left the futures is done.
abbrev pub Drops : Dict ℕ → Dict ℕ → Promises → Type 0
Drops fs fs' ps =
    (k : String) → (get k fs' ≡ get k fs) ⊎ ((get k fs' ≡ none) × DoneIfAny (get k fs) ps)

pub drop-LedgerIsValid :
    (fs fs' : Dict ℕ) (ps ps' : Promises)
    → Drops fs fs' ps'
    → Extends ps ps'
    → PromisesAreValid ps'
    → LedgerIsValid fs ps
    → LedgerIsValid fs' ps'
drop-LedgerIsValid fs fs' ps ps' d x v l = record {
  promises = v;
  waiting = λ k. ground (arith, d k, l.waiting k, x.created);
  kept = λ i. go i (l.kept i);
}
  where
    held :
        (i : ℕ) (k : String)
        → get k fs ≡ some i
        → (get k fs' ≡ get k fs) ⊎ ((get k fs' ≡ none) × DoneIfAny (get k fs) ps')
        → Kept i fs' ps'
    held i k e (inl same) = inr (inr (inl (k, same ∙ e)))
    held i k e (inr (gone, done)) = inr (inl (rw e at done))

    go : (i : ℕ) → Kept i fs ps → Kept i fs' ps'
    go i (inl new) = inl (omega (arith, x.created))
    go i (inr (inl done)) = inr (inl (x.still i done))
    go i (inr (inr (inl (k, e)))) = held i k e (d k)
    go i (inr (inr (inr lost))) = inr (inr (inr (x.lost i lost)))

-- A new future that is set at once.
abbrev pub made : Promises → Promises
made ps = record ps { created = ps.created + 1 }

pub made-PromisesAreValid : (ps : Promises) → PromisesAreValid ps → PromisesAreValid (made ps)
made-PromisesAreValid ps v = record { below = go ps.settled v.below; once = v.once }
  where
    go :
        (es : List (ℕ × Outcome TaskResult))
        → All (λ e. e.0 < ps.created) es
        → All (λ e. e.0 < ps.created + 1) es
    go [] a = tt
    go (e ∷ es) a = (omega arith, go es a.1)

undone_of_below :
    (n : ℕ) (es : List (ℕ × Outcome TaskResult)) → All (λ e. e.0 < n) es → All (λ e. n ≢ e.0) es
undone_of_below n [] a = tt
undone_of_below n (e ∷ es) a = (λ q. omega arith, undone_of_below n es a.1)

pub settled_new-LedgerIsValid :
    (fs : Dict ℕ) (o : Outcome TaskResult) (ps : Promises)
    → LedgerIsValid fs ps
    → LedgerIsValid fs (settle ps.created o (made ps))
unfolding is_done
settled_new-LedgerIsValid fs o ps l =
    let v = made-PromisesAreValid ps l.promises in
    record {
      promises = record {
        below = (omega arith, v.below);
        once = (undone_of_below ps.created ps.settled l.promises.below, v.once);
      };
      waiting = λ k. ground (arith, l.waiting k);
      kept = λ i. go i (l.kept i);
    }
  where
    go : (i : ℕ) → Kept i fs ps → Kept i fs (settle ps.created o (made ps))
    go i (inl new) = ground arith
    go i (inr (inl done)) = inr (inl (ground arith))
    go i (inr (inr held)) = inr (inr held)

-- A new future that waits under a new task.
pub waiting_new-LedgerIsValid :
    (k : String) (fs : Dict ℕ) (ps : Promises)
    → get k fs ≡ none
    → LedgerIsValid fs ps
    → LedgerIsValid (insert k ps.created fs) (made ps)
waiting_new-LedgerIsValid k fs ps new l = record {
  promises = made-PromisesAreValid ps l.promises;
  waiting = λ j. ground (arith, l.waiting j, get-insert k j ps.created fs);
  kept = λ i. go i (l.kept i);
}
  where
    here : get k (insert k ps.created fs) ≡ some ps.created
    here = ground (arith, get-insert k k ps.created fs)

    go : (i : ℕ) → Kept i fs ps → Kept i (insert k ps.created fs) (made ps)
    go i (inl made_) = elim (Bool-cases (i == ps.created)) [
      | inl e ↦ inr (inr (inl (k, here ∙ ground arith)))
      | inr n ↦ inl (ground arith)
    ]
    go i (inr (inl done)) = inr (inl done)
    go i (inr (inr (inl (j, e)))) =
        inr (inr (inl (j, ground (arith, get-insert k j ps.created fs))))
    go i (inr (inr (inr lost))) = inr (inr (inr lost))
