-- ===== src/Pool/Routing.antt =====
-- The choice of a group and the order of its workers.
use infly.Prelude.{
  ℕ, suc, ◌+◌, ◌-◌, ◌%◌, Bool, true, false, ◌&&◌, Option, none, some, String, List, [], ◌∷◌, ◌==◌,
  ltb, leb, length, text_dec, ite, if◌then◌else◌,
}
use infly.Prelude.Exec.{ok, raise, lift, ◌>>=◌}
use infly.Prelude.Int.{ℤ, pos, ltb_ℤ, eqb_ℤ, ◌+ℤ◌, ◌-ℤ◌}
use infly.Prelude.Sort.{sorted}
use infly.Dict.{Dict, get, insert, keys, values}
use infly.Core.Errors.{value_error, key_error, Outcome, Action}
use infly.Config.{WorkerGroup}
use infly.Pool.State.{Pool, Worker, System, or_zero, or_none_given}

-- `worker.alive and worker.process is not None and worker.process.is_alive()`
unfoldable pub is_live : System → Worker → Bool
is_live sys w = w.alive && w.has_process && sys.is_alive w

unfoldable pub is_in_group : String → Worker → Bool
is_in_group group_name w = ite (text_dec w.group.name group_name) true false

-- `_alive_workers_locked`
unfoldable pub alive_workers : System → (group_name : String) → List Worker → List Worker
unfolding is_live is_in_group
alive_workers sys group_name [] = []
alive_workers sys group_name (w ∷ ws) =
    let rest = alive_workers sys group_name ws in
    if is_in_group group_name w && is_live sys w then w ∷ rest else rest

abbrev pub weight_of : System → Pool → String → ℕ
weight_of sys p group_name = length (alive_workers sys group_name (values p.workers))

-- `{group_name: len(self._alive_workers_locked(group_name)) for group_name in group_names}`
unfoldable pub weights_of : System → Pool → List String → Dict ℕ → Dict ℕ
unfolding alive_workers
weights_of sys p [] weights = weights
weights_of sys p (g ∷ gs) weights = weights_of sys p gs (insert g (weight_of sys p g) weights)

unfoldable pub total : Dict ℕ → ℕ
total [] = 0
total ((g, n) ∷ weights) = n + total weights

-- The loop of `self._smooth_weights[group_name] += weight`.
unfoldable pub add_weights : Dict ℕ → Dict ℤ → Dict ℤ
add_weights [] smooth = smooth
add_weights ((g, n) ∷ weights) smooth =
    add_weights weights (insert g (or_zero (get g smooth) +ℤ pos n) smooth)

-- `list.index`
unfoldable pub index_of : String → List String → Option ℕ
index_of name [] = none
index_of name (x ∷ xs) =
    let rest = index_of name xs in
    ite (text_dec x name) (some 0) (elim rest [ none ↦ none | some i ↦ some (suc i) ])

-- A group with its key `(smooth weight, -index)`.
pub record Ranked : Type 0 where
  pub name : String
  pub weight : ℤ
  pub position : ℕ

-- Whether the key of `b` is greater than that of `a`.
unfoldable pub ranks_above : Ranked → Ranked → Bool
ranks_above b a =
    if ltb_ℤ a.weight b.weight
    then true
    else if eqb_ℤ a.weight b.weight
    then ltb b.position a.position
    else false

unfoldable pub ranked : String → ℤ → Option ℕ → Outcome (List Ranked) → Outcome (List Ranked)
ranked name weight none rest = raise (value_error "group name is not in list")
ranked name weight (some i) (raise e) = raise e
ranked name weight (some i) (ok rs) =
    ok (record { name = name; weight = weight; position = i } ∷ rs)

unfoldable pub rank_all : Dict WorkerGroup → Dict ℤ → List String → Outcome (List Ranked)
unfolding ranked
rank_all groups smooth [] = ok []
rank_all groups smooth (g ∷ gs) =
    ranked g (or_zero (get g smooth)) (index_of g (keys groups)) (rank_all groups smooth gs)

-- `max`: the first of the greatest.
unfoldable pub highest : Ranked → List Ranked → Ranked
unfolding ranks_above
highest best [] = best
highest best (r ∷ rs) = highest (if ranks_above r best then r else best) rs

unfoldable pub take_highest : (total_weight : ℕ) → List Ranked → Action Pool String
unfolding highest
take_highest total_weight [] p = (raise (value_error "max() arg is an empty sequence"), p)
take_highest total_weight (r ∷ rs) p =
    let selected = (highest r rs).name in
    (
      ok selected,
      record p {
        smooth_weights =
            insert selected (or_zero (get selected p.smooth_weights) -ℤ pos total_weight)
              p.smooth_weights;
      },
    )

-- `_select_group_locked`
unfoldable pub select_group : System → List String → Action Pool String
unfolding weights_of total add_weights rank_all take_highest
select_group sys group_names p =
    let weights = weights_of sys p group_names [] in
    let smooth = add_weights weights p.smooth_weights in
    (do ranks ← lift (rank_all p.groups smooth group_names); take_highest (total weights) ranks)
      (record p { smooth_weights = smooth })

-- `(worker.index - cursor) % count`, for a count above 0, as Python rounds.
unfoldable pub distance : (cursor count : ℕ) → Worker → ℕ
distance cursor count w = (w.index + (count - cursor % count)) % count

-- The order of the keys `(outstanding, distance)`.
unfoldable pub worker_le : (cursor count : ℕ) → Worker → Worker → Bool
unfolding distance
worker_le cursor count a b =
    if ltb a.outstanding b.outstanding
    then true
    else if a.outstanding == b.outstanding
    then leb (distance cursor count a) (distance cursor count b)
    else false

unfoldable pub order_workers : System → String → Pool → Option WorkerGroup → Outcome (List Worker)
unfolding alive_workers sorted worker_le
order_workers sys group_name p none = raise (key_error group_name)
order_workers sys group_name p (some g) = ok (
    sorted (worker_le (or_none_given (get group_name p.group_cursors)) g.process_count)
      (alive_workers sys group_name (values p.workers)))

-- `_ordered_workers_locked`
unfoldable pub ordered_workers : System → String → Pool → Outcome (List Worker)
unfolding order_workers
ordered_workers sys group_name p = order_workers sys group_name p (get group_name p.groups)
