-- ===== src/Pool/Tables.antt =====
-- The table of workers: each stands under its id, and which assignments are to a worker that lives.
use infly.Prelude.{
  ℕ, ◌≡◌, refl, sym, ◌∙◌, inl, inr, Bool, true, false, ◌&&◌, Option, none, some, String, List, [],
  ◌∷◌, arith, All, Bool-cases, ◌==◌, ite, text_dec,
}
use infly.Dict.{
  Dict, get, insert, remove, values, IsUnique, get-insert, insert-IsUnique, remove-IsUnique,
}
use infly.Pool.State.{Worker, Assignment, System}
use infly.Pool.Routing.{alive_workers, is_live, is_in_group}
use infly.Prelude.Exec.{ok, raise}
use infly.Core.Errors.{Outcome, Action}
use infly.Pool.Supervision.{map_workers, stop_each, stop_rest}

abbrev pub FiledUnder : String × Worker → Type 0
FiledUnder e = e.1.worker_id ≡ e.0

-- No id stands twice, and each worker stands under its own.
pub record WorkersAreFiled (ws : Dict Worker) : Type 0 where
  pub unique : IsUnique ws
  pub filed : All FiledUnder ws

All-insert :
    (w : Worker) (ws : Dict Worker) → All FiledUnder ws → All FiledUnder (insert w.worker_id w ws)
unfolding insert
All-insert w [] a = (refl, tt)
All-insert w ((k, x) ∷ ws) a =
    elim (text_dec k w.worker_id)
      as (λ d. All FiledUnder (ite d ((k, w) ∷ ws) ((k, x) ∷ insert w.worker_id w ws))) [
        | yes e ↦ (sym e, a.1)
        | no n ↦ (a.0, All-insert w ws a.1)
      ]

All-remove : (k : String) (ws : Dict Worker) → All FiledUnder ws → All FiledUnder (remove k ws)
unfolding remove
All-remove k [] a = tt
All-remove k ((j, x) ∷ ws) a =
    elim (text_dec j k) as (λ d. All FiledUnder (ite d (remove k ws) ((j, x) ∷ remove k ws))) [
      | yes e ↦ All-remove k ws a.1
      | no n ↦ (a.0, All-remove k ws a.1)
    ]

pub insert-WorkersAreFiled :
    (w : Worker) (ws : Dict Worker) → WorkersAreFiled ws → WorkersAreFiled (insert w.worker_id w ws)
insert-WorkersAreFiled w ws f = record {
  unique = insert-IsUnique w.worker_id w ws f.unique;
  filed = All-insert w ws f.filed;
}

pub remove-WorkersAreFiled :
    (k : String) (ws : Dict Worker) → WorkersAreFiled ws → WorkersAreFiled (remove k ws)
remove-WorkersAreFiled k ws f = record {
  unique = remove-IsUnique k ws f.unique;
  filed = All-remove k ws f.filed;
}

abbrev pub on_worker : (Worker → Worker) → Option Worker → Option Worker
on_worker f none = none
on_worker f (some w) = some (f w)

pub get-map_workers :
    (f : Worker → Worker) (k : String) (ws : Dict Worker)
    → get k (map_workers f ws) ≡ on_worker f (get k ws)
unfolding get map_workers
get-map_workers f k [] = refl
get-map_workers f k ((j, w) ∷ ws) = ground (arith, get-map_workers f k ws)

pub map_workers-WorkersAreFiled :
    (f : Worker → Worker) (same : (w : Worker) → (f w).worker_id ≡ w.worker_id) (ws : Dict Worker)
    → WorkersAreFiled ws
    → WorkersAreFiled (map_workers f ws)
unfolding map_workers
map_workers-WorkersAreFiled f same [] v = record { unique = tt; filed = tt }
map_workers-WorkersAreFiled f same ((k, w) ∷ ws) v =
    let ih =
      map_workers-WorkersAreFiled f same ws (record { unique = v.unique.1; filed = v.filed.1 }) in
    record {
      unique = (ground (arith, get-map_workers f k ws, v.unique.0), ih.unique);
      filed = (same w ∙ v.filed.0, ih.filed);
    }

get-stop_each :
    (stop : Action Worker (Unit {0})) (k : String) (ws : Dict Worker)
    → get k ws ≡ none
    → get k (stop_each stop ws).1 ≡ none
unfolding get stop_each stop_rest
get-stop_each stop k [] n = refl
get-stop_each stop k ((j, w) ∷ ws) n = go (stop w) (get-stop_each stop k ws (ground arith))
  where
    go :
        (r : Outcome (Unit {0}) × Worker)
        → get k (stop_each stop ws).1 ≡ none
        → get k (stop_rest j r ws (stop_each stop ws)).1 ≡ none
    go (raise e, x) ih = ground arith
    go (ok t, x) ih = ground arith

-- A loop of stops that keep the ids, however far it comes.
pub stop_each-WorkersAreFiled :
    (stop : Action Worker (Unit {0})) (same : (w : Worker) → (stop w).1.worker_id ≡ w.worker_id)
    (ws : Dict Worker)
    → WorkersAreFiled ws
    → WorkersAreFiled (stop_each stop ws).1
unfolding stop_each stop_rest
stop_each-WorkersAreFiled stop same [] v = record { unique = tt; filed = tt }
stop_each-WorkersAreFiled stop same ((k, w) ∷ ws) v =
    go (stop w) (same w ∙ v.filed.0) (get-stop_each stop k ws v.unique.0)
      (stop_each-WorkersAreFiled stop same ws (record { unique = v.unique.1; filed = v.filed.1 }))
  where
    go :
        (r : Outcome (Unit {0}) × Worker)
        → r.1.worker_id ≡ k
        → get k (stop_each stop ws).1 ≡ none
        → WorkersAreFiled (stop_each stop ws).1
        → WorkersAreFiled (stop_rest k r ws (stop_each stop ws)).1
    go (raise e, x) id new ih = record {
      unique = (v.unique.0, v.unique.1);
      filed = (id, v.filed.1);
    }
    go (ok t, x) id new ih = record { unique = (new, ih.unique); filed = (id, ih.filed) }

abbrev pub IsFound : Dict Worker → Worker → Type 0
IsFound d w = get w.worker_id d ≡ some w

IsFound-behind :
    (k : String) (x : Worker) (d : Dict Worker) (ws : List Worker)
    → get k d ≡ none
    → All (IsFound d) ws
    → All (IsFound ((k, x) ∷ d)) ws
unfolding get
IsFound-behind k x d [] n a = tt
IsFound-behind k x d (w ∷ ws) n a = (ground arith, IsFound-behind k x d ws n a.1)

-- Each worker of the table is found under its id.
pub values-IsFound : (d : Dict Worker) → WorkersAreFiled d → All (IsFound d) (values d)
unfolding get
values-IsFound [] v = tt
values-IsFound ((k, w) ∷ d) v = (
  ground (arith, v.filed.0),
  IsFound-behind k w d (values d) v.unique.0
      (values-IsFound d (record { unique = v.unique.1; filed = v.filed.1 })),
)

-- A worker that lives, of the table.
abbrev pub IsLiveIn : Dict Worker → Worker → Type 0
IsLiveIn d w = (get w.worker_id d ≡ some w) × (w.alive ≡ true)

pub alive_workers-live :
    (sys : System) (g : String) (d : Dict Worker) (ws : List Worker)
    → All (IsFound d) ws
    → All (IsLiveIn d) (alive_workers sys g ws)
unfolding alive_workers is_live
alive_workers-live sys g d [] a = tt
alive_workers-live sys g d (w ∷ ws) a = elim (Bool-cases (is_in_group g w && is_live sys w)) [
  | inl here ↦ rw here ((a.0, ground arith), alive_workers-live sys g d ws a.1)
  | inr gone ↦ rw gone (alive_workers-live sys g d ws a.1)
]

-- Whether the worker of an assignment is alive, and in that generation.
abbrev pub lives_as : ℕ → Option Worker → Bool
lives_as generation none = false
lives_as generation (some w) = w.alive && w.generation == generation

abbrev pub is_served : Assignment → Dict Worker → Bool
is_served a d = lives_as a.generation (get a.worker_id d)

-- No assignment that was served ceases to be.
abbrev pub KeepsServed : Dict Worker → Dict Worker → Type 0
KeepsServed d d' = (a : Assignment) → is_served a d ≡ true → is_served a d' ≡ true

pub insert_served :
    (w w' : Worker) (d : Dict Worker)
    → get w.worker_id d ≡ some w
    → w'.worker_id ≡ w.worker_id
    → w'.alive ≡ w.alive
    → w'.generation ≡ w.generation
    → KeepsServed d (insert w'.worker_id w' d)
insert_served w w' d found same alive generation a h =
    ground (arith, get-insert w'.worker_id a.worker_id w' d)
