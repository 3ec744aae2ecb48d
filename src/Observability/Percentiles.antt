-- ===== src/Observability/Percentiles.antt =====
-- The percentiles of a metrics snapshot exist, lie in order and are latencies that were measured.
use infly.Prelude.{
  ℕ, zero, suc, ◌-◌, ◌*◌, ◌≤◌, ◌<◌, ◌≡◌, refl, true, false, some, List, [], ◌∷◌, All, subst, ◌∙◌,
  length, arith, leb,
}
use infly.Prelude.Sort.{sorted, IsSorted}
use infly.Prelude.Sort.Laws.{sorted-IsSorted, length-sorted}
use infly.Observability.{
  Instrumentation, round_ratio, percentile, get_elem?, last, metrics_snapshot,
}

-- The indices of the two percentiles, in order and below `m + 1`.
half_le_most : (m : ℕ) → round_ratio (m * 1) 2 ≤ round_ratio (m * 19) 20
unfolding round_ratio
half_le_most m = ground arith

half_le : (m : ℕ) → round_ratio (m * 1) 2 ≤ m
unfolding round_ratio
half_le m = ground arith

most_le : (m : ℕ) → round_ratio (m * 19) 20 ≤ m
unfolding round_ratio
most_le m = ground arith

get_elem?_total : (xs : List ℕ) (i : ℕ) → i < length xs → (x : ℕ) × (get_elem? xs i ≡ some x)
get_elem?_total [] i h = absurd (omega arith)
get_elem?_total (x ∷ xs) zero h = (x, refl)
get_elem?_total (x ∷ xs) (suc i) h = get_elem?_total xs i (omega arith)

some_inj : {a b : ℕ} → some a ≡ some b → a ≡ b
some_inj h = ground arith

All-get_elem? :
    (P : ℕ → Type 0) (xs : List ℕ) (i : ℕ) {x : ℕ} → All P xs → get_elem? xs i ≡ some x → P x
All-get_elem? P [] i a h = cc
All-get_elem? P (y ∷ ys) zero a h = subst P (some_inj h) a.0
All-get_elem? P (y ∷ ys) (suc i) a h = All-get_elem? P ys i a.1 h

-- In a sorted list a later element is not the smaller one.
get_elem?_mono :
    (xs : List ℕ) (i j : ℕ) {a b : ℕ}
    → IsSorted leb xs
    → i ≤ j
    → get_elem? xs i ≡ some a
    → get_elem? xs j ≡ some b
    → a ≤ b
get_elem?_mono [] i j s h e f = cc
get_elem?_mono (x ∷ xs) zero zero s h e f = ground arith
get_elem?_mono (x ∷ xs) zero (suc j) s h e f =
    ground (arith, All-get_elem? (λ y. leb x y ≡ true) xs j s.0 f)
get_elem?_mono (x ∷ xs) (suc i) zero s h e f = absurd (omega arith)
get_elem?_mono (x ∷ xs) (suc i) (suc j) s h e f = get_elem?_mono xs i j s.1 (omega arith) e f

last-get_elem? : (x : ℕ) (xs : List ℕ) → last (x ∷ xs) ≡ get_elem? (x ∷ xs) (length xs)
last-get_elem? x [] = refl
last-get_elem? x (y ∷ ys) = last-get_elem? y ys

-- Some index with the property, and the element there.
abbrev Ordered : List ℕ → Type 0
Ordered xs =
    (a : ℕ) × (b : ℕ) × (c : ℕ) × (percentile xs 1 2 ≡ some a)
    × (percentile xs 19 20 ≡ some b)
    × (last xs ≡ some c)
    × (a ≤ b)
    × (b ≤ c)

percentiles-Ordered : (x : ℕ) (xs : List ℕ) → IsSorted leb (x ∷ xs) → Ordered (x ∷ xs)
unfolding percentile
percentiles-Ordered x [] s = (x, x, x, refl, refl, refl, omega arith, omega arith)
percentiles-Ordered x (y ∷ ys) s =
    let l : List ℕ = x ∷ y ∷ ys in
    let m : ℕ = length l - 1 in
    let (a, ea) = get_elem?_total l (round_ratio (m * 1) 2) (omega (arith, half_le m)) in
    let (b, eb) = get_elem?_total l (round_ratio (m * 19) 20) (omega (arith, most_le m)) in
    let (c, ec) = get_elem?_total l (length (y ∷ ys)) (omega arith) in
    (
      a,
      b,
      c,
      ea,
      eb,
      last-get_elem? x (y ∷ ys) ∙ ec,
      get_elem?_mono l (round_ratio (m * 1) 2) (round_ratio (m * 19) 20) s (half_le_most m) ea eb,
      get_elem?_mono l (round_ratio (m * 19) 20) (length (y ∷ ys)) s (omega (arith, most_le m)) eb
          ec,
    )

leb_total : (a b : ℕ) → leb a b ≡ false → leb b a ≡ true
leb_total a b h = ground arith

leb_trans : (a b c : ℕ) → leb a b ≡ true → leb b c ≡ true → leb a c ≡ true
leb_trans a b c h k = ground arith

-- Once a latency was measured, the snapshot has a median, a 95th percentile and a maximum, in
-- that order.
pub metrics_snapshot_ordered :
    (i : Instrumentation)
    → 0 < length i.latency_ms
    → (a : ℕ) × (b : ℕ) × (c : ℕ) × ((metrics_snapshot i).latency_ms_p50 ≡ some a)
      × ((metrics_snapshot i).latency_ms_p95 ≡ some b)
      × ((metrics_snapshot i).latency_ms_max ≡ some c)
      × (a ≤ b)
      × (b ≤ c)
unfolding metrics_snapshot
metrics_snapshot_ordered i h =
    go (sorted leb i.latency_ms) (sorted-IsSorted leb leb_total leb_trans i.latency_ms)
      (omega (arith, length-sorted {0} leb i.latency_ms))
  where
    go : (xs : List ℕ) → IsSorted leb xs → 0 < length xs → Ordered xs
    go [] s n = absurd (omega arith)
    go (x ∷ xs) s n = percentiles-Ordered x xs s
