-- ===== src/Pool/Rounds.antt =====
-- The rounds of the search of `execute` over the groups.
use infly.Prelude.{
  ℕ, zero, suc, sym, subst, Bool, true, false, String, List, [], ◌∷◌, ite, text_dec, if◌then◌else◌,
}
use infly.Prelude.Exec.{ok, raise, and_then}
use infly.Dict.{Dict}
use infly.Core.Errors.{Outcome}
use infly.Core.Contracts.{TaskRequest}
use infly.Config.{WorkerGroup}
use infly.Pool.State.{Pool, Worker, System}
use infly.Pool.Routing.{select_group, ordered_workers}
use infly.Pool.Assignment.{try_workers, try_group, try_groups, remove_first}
use infly.Pool.Placing.{Open, PlacedOr}
use infly.Pool.Search.{
  WorkersLive, try_workers-Placed, Selected, select_group-Selected, ordered_workers-live, AreKnown,
}

-- What one round of the search, or the whole search, ends with.
abbrev RoundEnds : String → Pool → Outcome (Bool × String) × Pool → Type 0
RoundEnds k p0 (raise e, p) = ⊥
RoundEnds k p0 (ok (taken, g), p) = PlacedOr k p0 taken p

try_group-RoundEnds :
    (sys : System) (request : TaskRequest) (g : String) (gs : List String) (p0 p : Pool)
    → AreKnown p.groups (g ∷ gs)
    → Open request.task_id p0 p
    → RoundEnds request.task_id p0 (try_group sys request (g ∷ gs) p)
unfolding try_group
try_group-RoundEnds sys request g gs p0 p a o =
    go (select_group sys (g ∷ gs) p) (select_group-Selected sys request.task_id g gs p0 p a o)
  where
    asked :
        (h : String) (p' : Pool) (r : Outcome (List Worker))
        → Open request.task_id p0 p'
        → WorkersLive p' r
        → RoundEnds request.task_id p0 (
            and_then r
              (λ ws p''.
                let (taken, after) = try_workers sys h request ws p'' in (ok (taken, h), after))
              p')
    asked h p' (raise e) o' l = l
    asked h p' (ok ws) o' l = try_workers-Placed sys h request ws p0 p' l o'

    go :
        (q : Outcome String × Pool)
        → Selected request.task_id p0 q
        → RoundEnds request.task_id p0 (
            and_then q.0
              (λ h p'.
                and_then
                  (ordered_workers sys h p')
                  (λ ws p''.
                    let (taken, after) = try_workers sys h request ws p'' in (ok (taken, h), after))
                  p')
              q.1)
    go (raise e, p') s = s
    go (ok h, p') s =
        asked h p' (ordered_workers sys h p') s.1 (ordered_workers-live sys h p' s.1.filed s.0)

AreKnown-remove_first :
    (groups : Dict WorkerGroup) (name : String) (gs : List String)
    → AreKnown groups gs
    → AreKnown groups (remove_first name gs)
unfolding remove_first
AreKnown-remove_first groups name [] a = tt
AreKnown-remove_first groups name (g ∷ gs) a =
    elim (text_dec g name) as (λ d. AreKnown groups (ite d gs (g ∷ remove_first name gs))) [
      | yes e ↦ a.1
      | no n ↦ (a.0, AreKnown-remove_first groups name gs a.1)
    ]

abbrev pub SearchEnds : String → Pool → Outcome Bool × Pool → Type 0
SearchEnds k p0 (raise e, p) = ⊥
SearchEnds k p0 (ok taken, p) = PlacedOr k p0 taken p

-- Whatever the groups and the workers answer.
pub try_groups-SearchEnds :
    (fuel : ℕ) (sys : System) (request : TaskRequest) (gs : List String) (p0 p : Pool)
    → AreKnown p0.groups gs
    → Open request.task_id p0 p
    → SearchEnds request.task_id p0 (try_groups fuel sys request gs p)
unfolding try_groups
try_groups-SearchEnds zero sys request gs p0 p a o = o
try_groups-SearchEnds (suc fuel) sys request [] p0 p a o = o
try_groups-SearchEnds (suc fuel) sys request (g ∷ gs) p0 p a o =
    go (try_groups fuel sys request) (λ hs p' b. try_groups-SearchEnds fuel sys request hs p0 p' b)
      (try_group sys request (g ∷ gs) p)
      (try_group-RoundEnds sys request g gs p0 p
        (subst (λ (d : Dict WorkerGroup). AreKnown d (g ∷ gs)) (sym o.groups) a) o)
  where
    ended :
        (next : List String → Pool → Outcome Bool × Pool)
        → ((hs : List String) (p' : Pool)
            → AreKnown p0.groups hs
            → Open request.task_id p0 p'
            → SearchEnds request.task_id p0 (next hs p'))
        → (taken : Bool) (h : String) (p' : Pool) → PlacedOr request.task_id p0 taken p'
        → SearchEnds request.task_id p0
            ((if taken then (λ s. (ok true, s)) else next (remove_first h (g ∷ gs))) p')
    ended next ih true h p' q = q
    ended next ih false h p' q =
        ih (remove_first h (g ∷ gs)) p' (AreKnown-remove_first p0.groups h (g ∷ gs) a) q

    go :
        (next : List String → Pool → Outcome Bool × Pool)
        → ((hs : List String) (p' : Pool)
            → AreKnown p0.groups hs
            → Open request.task_id p0 p'
            → SearchEnds request.task_id p0 (next hs p'))
        → (q : Outcome (Bool × String) × Pool) → RoundEnds request.task_id p0 q
        → SearchEnds request.task_id p0 (
            and_then q.0
              (λ outcome.
                if outcome.0 then (λ s. (ok true, s)) else next (remove_first outcome.1 (g ∷ gs)))
              q.1)
    go next ih (raise e, p') s = s
    go next ih (ok (taken, h), p') s = ended next ih taken h p' s
