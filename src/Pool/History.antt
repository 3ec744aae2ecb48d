-- ===== src/Pool/History.antt =====
-- A future is set once: what the calls of the pool do to a future, seen from outside.
use infly.Prelude.{
  ℕ, ◌<◌, ◌≤◌, ◌≡◌, refl, sym, ap, subst, ◌⊎◌, inl, inr, true, false, Option, none, some, List, [],
  ◌∷◌, arith, All, if◌then◌else◌, if_ind, ltb, ◌==◌,
}
use infly.Prelude.Exec.{raise}
use infly.Core.Errors.{Exception, Outcome}
use infly.Core.Contracts.{TaskResult}
use infly.Pool.State.{Promises, is_done, settle, settle_once, fail_futures}
use infly.Pool.Ledger.{PromisesAreValid, made}

-- The outcome that a future was set to.
unfoldable pub outcome_at : ℕ → List (ℕ × Outcome TaskResult) → Option (Outcome TaskResult)
outcome_at future [] = none
outcome_at future ((j, o) ∷ settled) =
    let rest = outcome_at future settled in if j == future then some o else rest

-- A future for its holder.
pub data FutureStatus : Type 0 where
  unmade pending : FutureStatus
  finished : Outcome TaskResult → FutureStatus

abbrev pub status_of : Option (Outcome TaskResult) → FutureStatus
status_of none = pending
status_of (some o) = finished o

abbrev pub status : ℕ → Promises → FutureStatus
status i ps = if ltb i ps.created then status_of (outcome_at i ps.settled) else unmade

-- What may become of a future: it is made, and it is set once.
abbrev pub Advance : FutureStatus → FutureStatus → Type 0
Advance unmade s = Unit {0}
Advance pending unmade = ⊥
Advance pending s = Unit {0}
Advance (finished o) s = s ≡ finished o

pub record Follows (ps ps' : Promises) : Type 0 where
  pub grows : ps.created ≤ ps'.created
  pub kept :
      (i : ℕ) (o : Outcome TaskResult)
      → outcome_at i ps.settled ≡ some o
      → outcome_at i ps'.settled ≡ some o

pub Follows-Advance :
    (i : ℕ) (ps ps' : Promises) → Follows ps ps' → Advance (status i ps) (status i ps')
Follows-Advance i ps ps' f =
    if_ind (λ (s : FutureStatus). Advance s (status i ps')) (ltb i ps.created)
      (λ below. go (outcome_at i ps.settled) refl below) (λ _. tt)
  where
    go :
        (o : Option (Outcome TaskResult))
        → outcome_at i ps.settled ≡ o
        → ltb i ps.created ≡ true
        → Advance (status_of o) (status i ps')
    go none e below =
        if_ind (Advance pending) (ltb i ps'.created)
          (λ _. elim (outcome_at i ps'.settled) as (λ x. Advance pending (status_of x)) [
            | none ↦ tt
            | some x ↦ tt
          ])
          (λ out. absurd (ground (arith, f.grows)))
    go (some o) e below =
        if_ind (λ (s : FutureStatus). s ≡ finished o) (ltb i ps'.created)
          (λ _. ap status_of (f.kept i o e)) (λ out. absurd (ground (arith, f.grows)))

pub Follows-refl : (ps : Promises) → Follows ps ps
Follows-refl ps = record { grows = ground arith; kept = λ i o h. h }

pub Follows-trans : (a b c : Promises) → Follows a b → Follows b c → Follows a c
Follows-trans a b c f g = record {
  grows = omega (arith, f.grows, g.grows);
  kept = λ i o h. g.kept i o (f.kept i o h);
}

done_of_outcome :
    (i : ℕ) (o : Outcome TaskResult) (es : List (ℕ × Outcome TaskResult))
    → outcome_at i es ≡ some o
    → is_done i es ≡ true
unfolding outcome_at is_done
done_of_outcome i o [] h = cc
done_of_outcome i o ((j, x) ∷ es) h = ground (arith, done_of_outcome i o es)

undone_below :
    (n : ℕ) (es : List (ℕ × Outcome TaskResult)) → All (λ e. e.0 < n) es → is_done n es ≡ false
unfolding is_done
undone_below n [] a = refl
undone_below n ((j, x) ∷ es) a = ground (arith, undone_below n es a.1)

pub settle-Follows :
    (i : ℕ) (o : Outcome TaskResult) (ps : Promises)
    → is_done i ps.settled ≡ false
    → Follows ps (settle i o ps)
unfolding outcome_at
settle-Follows i o ps open_ = record {
  grows = ground arith;
  kept = λ j x h. ground (arith, done_of_outcome j x ps.settled h);
}

pub settle_once-Follows :
    (i : ℕ) (o : Outcome TaskResult) (ps : Promises) → Follows ps (settle_once i o ps)
unfolding settle_once
settle_once-Follows i o ps =
    if_ind (Follows ps) (is_done i ps.settled) (λ _. Follows-refl ps)
      (λ open_. settle-Follows i o ps open_)

pub fail_futures-Follows :
    (fs : List ℕ) (e : Exception) (ps : Promises) → Follows ps (fail_futures fs e ps)
unfolding fail_futures
fail_futures-Follows [] e ps = Follows-refl ps
fail_futures-Follows (f ∷ fs) e ps =
    Follows-trans ps (settle_once f (raise e) ps) (fail_futures fs e (settle_once f (raise e) ps))
      (settle_once-Follows f (raise e) ps) (fail_futures-Follows fs e (settle_once f (raise e) ps))

made-Follows : (ps : Promises) → Follows ps (made ps)
made-Follows ps = record { grows = ground arith; kept = λ i o h. h }

-- A new future, that waits or is set at once.
abbrev pub Noted : Promises → Promises → Type 0
Noted ps ps' = (ps' ≡ made ps) ⊎ ((o : Outcome TaskResult) × (ps' ≡ settle ps.created o (made ps)))

pub Noted-Follows : (ps ps' : Promises) → PromisesAreValid ps → Noted ps ps' → Follows ps ps'
Noted-Follows ps ps' v (inl e) = subst (Follows ps) (sym e) (made-Follows ps)
Noted-Follows ps ps' v (inr (o, e)) = subst (Follows ps) (sym e) (
    Follows-trans ps (made ps) (settle ps.created o (made ps)) (made-Follows ps)
      (settle-Follows ps.created o (made ps) (undone_below ps.created ps.settled v.below)))
