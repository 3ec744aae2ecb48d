-- ===== src/Pool/Founding.antt =====
-- The constructor makes a valid pool.
use infly.Prelude.{
  ◌+◌, ◌≡◌, ◌≢◌, refl, subst, Bool, true, false, not, String, List, [], ◌∷◌, arith, All,
}
use infly.Prelude.Exec.{ok, raise}
use infly.Prelude.Int.{ℤ}
use infly.Dict.{Dict, get, contains, insert, values, get-insert}
use infly.Core.Errors.{
  Outcome, platform_error, internal_error, value_error, type_error, key_error, other, coded,
}
use infly.Config.{WorkerGroup, has_duplicates}
use infly.Config.Laws.{IsDistinct, has_duplicates-IsDistinct}
use infly.Registry.{HandlerRegistry}
use infly.Pool.State.{Pool, Worker}
use infly.Pool.Groups.{
  ◌>>=◌, ◌>>◌, resolve_group_handlers, new_workers, publish, launch_all, await_all, put_workers,
}
use infly.Pool.Building.{
  empty_pool, group_names_of, add_groups, build, wrapped, raise_if, no_groups, is_positive, init,
}
use infly.Pool.Links.{publish-TablesAreLinked}
use infly.Pool.Validity.{OwnedBy, PoolIsValid}
use infly.Pool.Publishing.{put_workers-Filed}
use infly.Pool.Reach.{empty_pool-IsValid}

-- A pool in which no task was ever assigned.
pub record Unused (p : Pool) : Type 0 where
  pub valid : PoolIsValid p
  pub unassigned : p.assignments ≡ []

abbrev pub AreFresh : List WorkerGroup → Dict WorkerGroup → Type 0
AreFresh gs groups = All (λ g. contains g.name groups ≡ false) gs

nobody_owned :
    (k : String) (p : Pool) (ws : Dict Worker)
    → p.assignments ≡ []
    → OwnedBy (get k p.assignments) ws
unfolding get
nobody_owned k p ws e = rw e tt

publish-Unused :
    (g : WorkerGroup) (names : List String) (ws : List Worker) (p : Pool)
    → contains g.name p.groups ≡ false
    → Unused p
    → Unused (publish g names ws p)
unfolding publish
publish-Unused g names ws p fresh u = record {
  valid = record {
    filed = put_workers-Filed ws p.workers u.valid.filed;
    tasks = u.valid.tasks;
    waiting = u.valid.waiting;
    paired = u.valid.paired;
    owned = λ s k. nobody_owned k p _ u.unassigned;
    ledger = u.valid.ledger;
    links =
        publish-TablesAreLinked g names p.groups p.group_handlers p.handler_groups fresh
          u.valid.links;
  };
  unassigned = u.unassigned;
}

abbrev pub UnusedIfOk : Outcome Pool → Type 0
UnusedIfOk (ok p) = Unused p
UnusedIfOk (raise e) = Unit {0}

stay_fresh :
    (g : WorkerGroup) (gs : List WorkerGroup) (groups : Dict WorkerGroup)
    → All (λ n. g.name ≢ n) (group_names_of gs)
    → AreFresh gs groups
    → AreFresh gs (insert g.name g groups)
stay_fresh g [] groups d a = tt
stay_fresh g (h ∷ gs) groups d a =
    (ground (arith, d.0, get-insert g.name h.name g groups), stay_fresh g gs groups d.1 a.1)

add_groups-Unused :
    (gs : List WorkerGroup) (p : Pool)
    → IsDistinct (group_names_of gs)
    → AreFresh gs p.groups
    → Unused p
    → UnusedIfOk (add_groups gs p)
unfolding add_groups publish
add_groups-Unused [] p d a u = u
add_groups-Unused (g ∷ gs) p d a u =
    go (resolve_group_handlers p.registry g) (λ q b w. add_groups-Unused gs q d.1 b w)
  where
    next : List String → Pool
    next names =
        publish g names (new_workers p.workers_created g names 0 g.process_count)
          (record p { workers_created = p.workers_created + g.process_count })

    go :
        (r : Outcome (List String))
        → ((q : Pool) → AreFresh gs q.groups → Unused q → UnusedIfOk (add_groups gs q))
        → UnusedIfOk (r >>= λ names. add_groups gs (next names))
    go (raise e) others = tt
    go (ok names) others = others (next names) (stay_fresh g gs p.groups d.0 a.1) (
        publish-Unused g names (new_workers p.workers_created g names 0 g.process_count)
          (record p { workers_created = p.workers_created + g.process_count }) a.0
          (record { valid = u.valid; unassigned = u.unassigned }))

all_fresh : (gs : List WorkerGroup) → AreFresh gs []
unfolding get
all_fresh [] = tt
all_fresh (g ∷ gs) = (refl, all_fresh gs)

put_workers-Unused :
    (ws : List Worker) (p : Pool)
    → Unused p
    → Unused (record p { workers = put_workers ws p.workers })
put_workers-Unused ws p u = record {
  valid = record {
    filed = put_workers-Filed ws p.workers u.valid.filed;
    tasks = u.valid.tasks;
    waiting = u.valid.waiting;
    paired = u.valid.paired;
    owned = λ s k. nobody_owned k p _ u.unassigned;
    ledger = u.valid.ledger;
    links = u.valid.links;
  };
  unassigned = u.unassigned;
}

abbrev pub IsValidIfOk : Outcome Pool → Type 0
IsValidIfOk (ok p) = PoolIsValid p
IsValidIfOk (raise e) = Unit {0}

launched-IsValid :
    (ready : Worker → Outcome (Unit {0})) (registry : HandlerRegistry) (r : Outcome Pool)
    → UnusedIfOk r
    → IsValidIfOk (
        r >>= λ p. launch_all registry (values p.workers) >>= λ launched.
        await_all ready launched >>= λ workers.
        ok (record p { workers = put_workers workers p.workers }))
launched-IsValid ready registry (raise e) u = tt
launched-IsValid ready registry (ok p) u = go (launch_all registry (values p.workers))
  where
    awaited :
        (r : Outcome (List Worker))
        → IsValidIfOk (r >>= λ workers. ok (record p { workers = put_workers workers p.workers }))
    awaited (raise e) = tt
    awaited (ok ws) = (put_workers-Unused ws p u).valid

    go :
        (r : Outcome (List Worker))
        → IsValidIfOk (
            r >>= λ launched. await_all ready launched >>= λ workers.
            ok (record p { workers = put_workers workers p.workers }))
    go (raise e) = tt
    go (ok launched) = awaited (await_all ready launched)

build-IsValid :
    (ready : Worker → Outcome (Unit {0})) (registry : HandlerRegistry) (groups : List WorkerGroup)
    (startup_timeout : ℤ)
    → IsValidIfOk (build ready registry groups startup_timeout)
unfolding build
build-IsValid ready registry groups startup_timeout =
    go (no_groups groups) (not (is_positive startup_timeout))
      (has_duplicates (group_names_of groups)) refl
  where
    go :
        (a b c : Bool)
        → has_duplicates (group_names_of groups) ≡ c
        → IsValidIfOk (
            raise_if a (
              platform_error internal_error
                "ProcessPoolStrategy requires at least one worker group")
            >> (raise_if b (
                  platform_error internal_error "startup_timeout_seconds must be greater than zero")
                >> (raise_if c (platform_error internal_error "WorkerGroup names must be unique")
                    >> (add_groups groups (empty_pool registry) >>= λ p.
                        launch_all registry (values p.workers) >>= λ launched.
                        await_all ready launched >>= λ workers.
                        ok (record p { workers = put_workers workers p.workers })))))
    go true b c e = tt
    go false true c e = tt
    go false false true e = tt
    go false false false e =
        launched-IsValid ready registry (add_groups groups (empty_pool registry)) (
          add_groups-Unused groups (empty_pool registry)
            ((has_duplicates-IsDistinct (group_names_of groups)).0 e) (all_fresh groups)
            (record { valid = empty_pool-IsValid registry; unassigned = refl }))

-- Whatever the handlers, the groups and the answers of their processes are, a pool that the
-- constructor returns is valid.
pub init-PoolIsValid :
    (ready : Worker → Outcome (Unit {0})) (registry : HandlerRegistry) (groups : List WorkerGroup)
    (startup_timeout : ℤ) (p : Pool)
    → init ready registry groups startup_timeout ≡ ok p
    → PoolIsValid p
unfolding init
init-PoolIsValid ready registry groups startup_timeout p h =
    go (build ready registry groups startup_timeout)
      (build-IsValid ready registry groups startup_timeout) h
  where
    go : (r : Outcome Pool) → IsValidIfOk r → wrapped r ≡ ok p → PoolIsValid p
    go (ok q) v e = subst IsValidIfOk e v
    go (raise (platform_error c m)) v e = absurd cc
    go (raise (value_error m)) v e = absurd cc
    go (raise (type_error m)) v e = absurd cc
    go (raise (key_error m)) v e = absurd cc
    go (raise (other m)) v e = absurd cc
    go (raise (coded c m)) v e = absurd cc
