-- ===== src/Pool/Balance.antt =====
-- The smooth weights of `_select_group_locked` even out.
use infly.Prelude.{ℕ, ◌+◌, ◌≡◌, String, List, [], ◌∷◌, arith}
use infly.Prelude.Exec.{ok, raise, and_then}
use infly.Prelude.Int.{ℤ, pos, pos_part, neg_part, ◌+ℤ◌, ◌-ℤ◌, +ℤ_parts, -ℤ_parts, eq_of_parts}
use infly.Dict.{Dict, get, insert}
use infly.Core.Errors.{Outcome}
use infly.Pool.State.{Pool, System, or_zero}
use infly.Pool.Routing.{
  Ranked, rank_all, highest, take_highest, select_group, weights_of, add_weights, total,
}
use infly.Pool.Search.{AreKnown, RanksKnown, rank_all-RanksKnown}

unfoldable pub sum : Dict ℤ → ℤ
sum [] = pos 0
sum ((k, v) ∷ d) = v +ℤ sum d

-- A write changes the sum by what it changes the entry.
sum-insert :
    (k : String) (v : ℤ) (d : Dict ℤ)
    → pos_part (sum (insert k v d)) + pos_part (or_zero (get k d)) + neg_part (sum d) + neg_part v
      ≡ neg_part (sum (insert k v d)) + neg_part (or_zero (get k d)) + pos_part (sum d) + pos_part v
unfolding sum insert get
sum-insert k v [] = ground (arith, +ℤ_parts v (pos 0))
sum-insert k v ((j, w) ∷ d) = ground (
  arith,
  sum-insert k v d,
  +ℤ_parts v (sum d),
  +ℤ_parts w (sum d),
  +ℤ_parts w (sum (insert k v d)),
)

sum-add_weights :
    (weights : Dict ℕ) (smooth : Dict ℤ)
    → pos_part (sum (add_weights weights smooth)) + neg_part (sum smooth)
      ≡ neg_part (sum (add_weights weights smooth)) + pos_part (sum smooth) + total weights
unfolding add_weights total
sum-add_weights [] smooth = omega arith
sum-add_weights ((g, n) ∷ weights) smooth =
    let old = or_zero (get g smooth) in
    omega (
      arith,
      sum-add_weights weights (insert g (old +ℤ pos n) smooth),
      sum-insert g (old +ℤ pos n) smooth,
      +ℤ_parts old (pos n),
    )

-- The outcome of a selection, and what the weights then add up to.
abbrev pub SumsTo : ℤ → Outcome String × Pool → Type 0
SumsTo s (raise e, p) = ⊥
SumsTo s (ok g, p) = sum p.smooth_weights ≡ s

-- A selection among groups of the pool, of which there is one, raises nothing, and the smooth
-- weights add up to what they did before: what the groups gain by their live workers, the selected
-- one pays.
pub select_group-SumsTo :
    (sys : System) (g : String) (gs : List String) (p : Pool)
    → AreKnown p.groups (g ∷ gs)
    → SumsTo (sum p.smooth_weights) (select_group sys (g ∷ gs) p)
unfolding select_group take_highest
select_group-SumsTo sys g gs p a =
    let weights = weights_of sys p (g ∷ gs) [] in
    go weights (rank_all p.groups (add_weights weights p.smooth_weights) (g ∷ gs))
      (rank_all-RanksKnown p.groups (add_weights weights p.smooth_weights) (g ∷ gs) a)
  where
    paid :
        (weights : Dict ℕ) (selected : String)
        → let smooth = add_weights weights p.smooth_weights in
          sum (insert selected (or_zero (get selected smooth) -ℤ pos (total weights)) smooth)
          ≡ sum p.smooth_weights
    paid weights selected =
        let smooth = add_weights weights p.smooth_weights in
        let old = or_zero (get selected smooth) in
        let new = old -ℤ pos (total weights) in
        eq_of_parts (sum (insert selected new smooth)) (sum p.smooth_weights) (
          omega (
            arith,
            sum-add_weights weights p.smooth_weights,
            sum-insert selected new smooth,
            -ℤ_parts old (pos (total weights)),
          ))

    go :
        (weights : Dict ℕ) (r : Outcome (List Ranked))
        → RanksKnown p.groups (g ∷ gs) r
        → SumsTo (sum p.smooth_weights) (
            and_then r
              (take_highest (total weights))
              (record p { smooth_weights = add_weights weights p.smooth_weights }))
    go weights (raise e) k = k
    go weights (ok []) k = absurd (omega (arith, k.1))
    go weights (ok (r ∷ rs)) k = paid weights (highest r rs).name
