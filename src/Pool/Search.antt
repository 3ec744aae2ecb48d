-- ===== src/Pool/Search.antt =====
-- The loops of `execute` over groups and workers: they end with the request placed or with nothing
-- changed, and raise nothing.
use infly.Prelude.{
  ℕ, ◌≡◌, refl, ◌∙◌, Bool, true, false, Option, none, some, String, List, [], ◌∷◌, arith, is_some,
  All, if◌then◌else◌, length, if_ind,
}
use infly.Prelude.Exec.{ok, raise, and_then}
use infly.Prelude.Int.{ℤ}
use infly.Prelude.Sort.Laws.{All-sorted}
use infly.Dict.{Dict, get, values, contains, keys}
use infly.Core.Errors.{Outcome}
use infly.Core.Contracts.{TaskRequest}
use infly.Config.{WorkerGroup}
use infly.Pool.State.{Pool, Worker, System, or_zero}
use infly.Pool.Routing.{
  alive_workers, select_group, ordered_workers, order_workers, rank_all, Ranked, ranked, index_of,
  highest, take_highest, weights_of, total, add_weights, ranks_above,
}
use infly.Pool.Assignment.{claim, put_nowait, put_claimed, try_worker, try_workers}
use infly.Pool.Tables.{WorkersAreFiled, values-IsFound, IsLiveIn, alive_workers-live}
use infly.Pool.Placing.{Open, Placed, PlacedOr, refused-Open, refused-live, taken-Placed}

-- The same, with the workers that are still to be asked.
abbrev PlacedOrElse : String → Pool → List Worker → Bool → Pool → Type 0
PlacedOrElse k p0 ws true p = Placed k p0 p
PlacedOrElse k p0 ws false p = Open k p0 p × All (IsLiveIn p.workers) ws

try_worker-Placed :
    (sys : System) (g : String) (request : TaskRequest) (w : Worker) (ws : List Worker)
    (p0 p : Pool)
    → IsLiveIn p.workers w
    → All (IsLiveIn p.workers) ws
    → Open request.task_id p0 p
    → PlacedOrElse request.task_id p0 ws
        (try_worker sys g request w p).0
        (try_worker sys g request w p).1
unfolding try_worker put_claimed
try_worker-Placed sys g request w ws p0 p l ls o = go (put_nowait sys request w)
  where
    go :
        (r : Outcome (List (Option TaskRequest)))
        → PlacedOrElse request.task_id p0 ws
            (put_claimed g request w r (claim request.task_id w p)).0
            (put_claimed g request w r (claim request.task_id w p)).1
    go (ok items) = taken-Placed g request.task_id p0 p w items l o
    go (raise e) =
        (refused-Open request.task_id p0 p w l o, refused-live request.task_id p w ws l ls)

pub try_workers-Placed :
    (sys : System) (g : String) (request : TaskRequest) (ws : List Worker) (p0 p : Pool)
    → All (IsLiveIn p.workers) ws
    → Open request.task_id p0 p
    → PlacedOr request.task_id p0
        (try_workers sys g request ws p).0
        (try_workers sys g request ws p).1
unfolding try_workers
try_workers-Placed sys g request [] p0 p a o = o
try_workers-Placed sys g request (w ∷ ws) p0 p a o =
    go (try_worker sys g request w p) (try_workers sys g request ws)
      (λ p'. try_workers-Placed sys g request ws p0 p')
      (try_worker-Placed sys g request w ws p0 p a.0 a.1 o)
  where
    go :
        (t : Bool × Pool) (rest : Pool → Bool × Pool)
        → ((p' : Pool)
            → All (IsLiveIn p'.workers) ws
            → Open request.task_id p0 p'
            → PlacedOr request.task_id p0 (rest p').0 (rest p').1)
        → PlacedOrElse request.task_id p0 ws t.0 t.1
        → PlacedOr request.task_id p0
            (if t.0 then (true, t.1) else rest t.1).0
            (if t.0 then (true, t.1) else rest t.1).1
    go (true, p') rest ih placed = placed
    go (false, p') rest ih (o', a') = ih p' a' o'

-- The groups of the search are in the table.
abbrev pub AreKnown : Dict WorkerGroup → List String → Type 0
AreKnown groups gs = All (λ g. contains g groups ≡ true) gs

is_some-index_of :
    (g : String) (groups : Dict WorkerGroup)
    → is_some (index_of g (keys groups)) ≡ contains g groups
unfolding index_of get
is_some-index_of g [] = refl
is_some-index_of g ((j, x) ∷ groups) = ground (arith, is_some-index_of g groups)

abbrev pub RanksKnown : Dict WorkerGroup → List String → Outcome (List Ranked) → Type 0
RanksKnown groups gs (raise e) = ⊥
RanksKnown groups gs (ok rs) = All (λ r. contains r.name groups ≡ true) rs × (length rs ≡ length gs)

pub rank_all-RanksKnown :
    (groups : Dict WorkerGroup) (smooth : Dict ℤ) (gs : List String)
    → AreKnown groups gs
    → RanksKnown groups gs (rank_all groups smooth gs)
unfolding rank_all ranked
rank_all-RanksKnown groups smooth [] a = (tt, refl)
rank_all-RanksKnown groups smooth (g ∷ gs) a =
    go (index_of g (keys groups)) (rank_all groups smooth gs) (is_some-index_of g groups ∙ a.0)
      (rank_all-RanksKnown groups smooth gs a.1)
  where
    go :
        (o : Option ℕ) (r : Outcome (List Ranked))
        → is_some o ≡ true
        → RanksKnown groups gs r
        → RanksKnown groups (g ∷ gs) (ranked g (or_zero (get g smooth)) o r)
    go none r e k = cc
    go (some i) (raise x) e k = k
    go (some i) (ok rs) e k = ((a.0, k.0), omega (arith, k.1))

highest_known :
    (groups : Dict WorkerGroup) (best : Ranked) (rs : List Ranked)
    → contains best.name groups ≡ true
    → All (λ r. contains r.name groups ≡ true) rs
    → contains (highest best rs).name groups ≡ true
unfolding highest
highest_known groups best [] b a = b
highest_known groups best (r ∷ rs) b a =
    highest_known groups (if ranks_above r best then r else best) rs
      (if_ind (λ (x : Ranked). contains x.name groups ≡ true) (ranks_above r best) (λ _. a.0)
        (λ _. b))
      a.1

-- The selected group is in the table, and only weights have changed.
abbrev pub Selected : String → Pool → Outcome String × Pool → Type 0
Selected k p0 (raise e, p) = ⊥
Selected k p0 (ok g, p) = (contains g p.groups ≡ true) × Open k p0 p

pub select_group-Selected :
    (sys : System) (k : String) (g : String) (gs : List String) (p0 p : Pool)
    → AreKnown p.groups (g ∷ gs)
    → Open k p0 p
    → Selected k p0 (select_group sys (g ∷ gs) p)
unfolding select_group take_highest
select_group-Selected sys k g gs p0 p a o = go (weights_of sys p (g ∷ gs) []) (
    rank_all-RanksKnown p.groups (add_weights (weights_of sys p (g ∷ gs) []) p.smooth_weights)
      (g ∷ gs) a)
  where
    reweighted : (smooth : Dict ℤ) → Open k p0 (record p { smooth_weights = smooth })
    reweighted smooth = record {
      filed = o.filed;
      futures = o.futures;
      promises = o.promises;
      unassigned = o.unassigned;
      others = o.others;
      served = o.served;
      groups = o.groups;
      handlers = o.handlers;
      routes = o.routes;
      closing = o.closing;
      tasks = o.tasks;
    }

    ranks :
        (n : ℕ) (smooth : Dict ℤ) (r : Outcome (List Ranked))
        → RanksKnown p.groups (g ∷ gs) r
        → Selected k p0 (and_then r (take_highest n) (record p { smooth_weights = smooth }))
    ranks n smooth (raise e) q = q
    ranks n smooth (ok []) q = absurd (omega (arith, q.1))
    ranks n smooth (ok (r ∷ rs)) q = (highest_known p.groups r rs q.0.0 q.0.1, reweighted _)

    go :
        (weights : Dict ℕ)
        → RanksKnown p.groups
            (g ∷ gs)
            (rank_all p.groups (add_weights weights p.smooth_weights) (g ∷ gs))
        → Selected k p0 (
            and_then
              (rank_all p.groups (add_weights weights p.smooth_weights) (g ∷ gs))
              (take_highest (total weights))
              (record p { smooth_weights = add_weights weights p.smooth_weights }))
    go weights q = ranks (total weights) _ _ q

abbrev pub WorkersLive : Pool → Outcome (List Worker) → Type 0
WorkersLive p (raise e) = ⊥
WorkersLive p (ok ws) = All (IsLiveIn p.workers) ws

pub ordered_workers-live :
    (sys : System) (g : String) (p : Pool)
    → WorkersAreFiled p.workers
    → contains g p.groups ≡ true
    → WorkersLive p (ordered_workers sys g p)
unfolding ordered_workers order_workers
ordered_workers-live sys g p v h = go (get g p.groups) h
  where
    go : (o : Option WorkerGroup) → is_some o ≡ true → WorkersLive p (order_workers sys g p o)
    go none e = cc
    go (some group) e =
        All-sorted _ (IsLiveIn p.workers) (alive_workers sys g (values p.workers))
          (alive_workers-live sys g p.workers (values p.workers) (values-IsFound p.workers v))
