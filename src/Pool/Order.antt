-- ===== src/Pool/Order.antt =====
-- The order in which the workers of a group are asked.
use mathlib.Core.List.{Perm}
use infly.Prelude.{
  ℕ, ◌≤◌, ◌≡◌, true, false, Option, none, some, String, List, [], ◌∷◌, arith, AllPairs, All-mono,
  is_some,
}
use infly.Prelude.Exec.{ok, raise}
use infly.Prelude.Sort.{sorted, IsSorted}
use infly.Prelude.Sort.Laws.{sorted-perm, sorted-IsSorted}
use infly.Dict.{get, values, contains}
use infly.Config.{WorkerGroup}
use infly.Core.Errors.{Outcome}
use infly.Pool.State.{Pool, Worker, System, or_none_given}
use infly.Pool.Routing.{alive_workers, worker_le, order_workers, ordered_workers}

-- Nobody stands behind a worker with more to do.
abbrev pub AreByLoad : List Worker → Type 0
AreByLoad = AllPairs (λ v w. v.outstanding ≤ w.outstanding)

worker_le-total : (c n : ℕ) (v w : Worker) → worker_le c n v w ≡ false → worker_le c n w v ≡ true
unfolding worker_le
worker_le-total c n v w h = ground arith

worker_le_trans :
    (c n : ℕ) (u v w : Worker)
    → worker_le c n u v ≡ true
    → worker_le c n v w ≡ true
    → worker_le c n u w ≡ true
unfolding worker_le
worker_le_trans c n u v w h k = ground arith

worker_le_load : (c n : ℕ) (v w : Worker) → worker_le c n v w ≡ true → v.outstanding ≤ w.outstanding
unfolding worker_le
worker_le_load c n v w h = ground arith

by_load : (c n : ℕ) (ws : List Worker) → IsSorted (worker_le c n) ws → AreByLoad ws
by_load c n [] s = tt
by_load c n (w ∷ ws) s = (
  All-mono (λ x. worker_le c n w x ≡ true) (λ x. w.outstanding ≤ x.outstanding)
      (λ x. worker_le_load c n w x) ws s.0,
  by_load c n ws s.1,
)

-- An outcome that is a list of the given workers, by load.
abbrev pub Asked : List Worker → Outcome (List Worker) → Type 0
Asked live (raise e) = ⊥
Asked live (ok ws) = AreByLoad ws × Perm ws live

-- For a group of the pool `_ordered_workers_locked` raises nothing and gives the workers of the group
-- that live, each once, and those with fewer outstanding requests first.
pub ordered_workers-Asked :
    (sys : System) (g : String) (p : Pool)
    → contains g p.groups ≡ true
    → Asked (alive_workers sys g (values p.workers)) (ordered_workers sys g p)
unfolding ordered_workers order_workers
ordered_workers-Asked sys g p known = go (get g p.groups) known
  where
    go :
        (o : Option WorkerGroup)
        → is_some o ≡ true
        → Asked (alive_workers sys g (values p.workers)) (order_workers sys g p o)
    go none h = absurd cc
    go (some group) h =
        let c = or_none_given (get g p.group_cursors) in
        let le = worker_le c group.process_count in
        let live = alive_workers sys g (values p.workers) in
        (
          by_load c group.process_count (sorted le live) (
              sorted-IsSorted le (worker_le-total c group.process_count)
                (worker_le_trans c group.process_count) live),
          sorted-perm le live,
        )
