-- ===== src/Backend/Queue.antt =====
-- The pending heap: tasks are pulled by priority, and in the order of submission within one.
use infly.Prelude.{
  ℕ, ◌+◌, ◌<◌, true, false, ◌≡◌, refl, ◌⊎◌, inl, inr, none, some, List, [], ◌∷◌, ◌++◌, ap, All,
  arith, Bool-cases,
}
use infly.Prelude.Int.{ℤ, ◌≤ℤ◌, ◌<ℤ◌, negate}
use infly.Dict.{get, contains}
use infly.Core.Contracts.{TaskRecord}
use infly.Backend.{Backend, Entry, precedes, heappush, submit, pull}

-- Each entry precedes all behind it.
abbrev pub IsOrdered : List Entry → Type 0
IsOrdered [] = Unit
IsOrdered (e ∷ es) = All (λ f. precedes e f ≡ true) es × IsOrdered es

-- The heap is in order, and the next sequence number is new.
pub record QueueIsValid (b : Backend) : Type 0 where
  pub ordered : IsOrdered b.pending
  pub fresh : All (λ e. e.sequence < b.sequence) b.pending

All-behind :
    (e x : Entry) (xs : List Entry)
    → precedes e x ≡ true
    → x.sequence < e.sequence
    → All (λ y. precedes x y ≡ true) xs
    → All (λ y. e.neg_priority <ℤ y.neg_priority) xs
unfolding precedes
All-behind e x [] h n a = tt
All-behind e x (y ∷ ys) h n a = (ground (arith, a.0), All-behind e x ys h n a.1)

-- Where a new entry stands: behind those of no lower priority, in front of those of a lower one.
pub record Position (e : Entry) (before after : List Entry) : Type 0 where
  pub front : List Entry
  pub back : List Entry
  pub was : before ≡ front ++ back
  pub is : after ≡ front ++ e ∷ back
  pub not_lower : All (λ f. f.neg_priority ≤ℤ e.neg_priority) front
  pub lower : All (λ f. e.neg_priority <ℤ f.neg_priority) back

first_lower :
    (e x : Entry) → precedes e x ≡ true → x.sequence < e.sequence → e.neg_priority <ℤ x.neg_priority
unfolding precedes
first_lower e x h n = ground arith

first_not_lower : (e x : Entry) → precedes e x ≡ false → x.neg_priority ≤ℤ e.neg_priority
unfolding precedes
first_not_lower e x h = ground arith

heappush-Position :
    (e : Entry) (es : List Entry)
    → IsOrdered es
    → All (λ f. f.sequence < e.sequence) es
    → Position e es (heappush e es)
unfolding heappush
heappush-Position e [] o n = record {
  front = [];
  back = [];
  was = refl;
  is = refl;
  not_lower = tt;
  lower = tt;
}
heappush-Position e (x ∷ xs) o n = elim (Bool-cases (precedes e x)) [
  | inl first ↦ rw first (record {
    front = [];
    back = x ∷ xs;
    was = refl;
    is = refl;
    not_lower = tt;
    lower = (first_lower e x first n.0, All-behind e x xs first n.0 o.0);
  })
  | inr later ↦
      let p = heappush-Position e xs o.1 n.1 in
      rw later (record {
        front = x ∷ p.front;
        back = p.back;
        was = ap (◌∷◌ x) p.was;
        is = ap (◌∷◌ x) p.is;
        not_lower = (first_not_lower e x later, p.not_lower);
        lower = p.lower;
      })
]

All-heappush {ℓ} :
    (P : Entry → Type ℓ) (e : Entry) (es : List Entry) → P e → All P es → All P (heappush e es)
unfolding heappush
All-heappush P e [] p a = (p, tt)
All-heappush P e (x ∷ xs) p a = elim (Bool-cases (precedes e x)) [
  | inl first ↦ rw first (p, a)
  | inr later ↦ rw later (a.0, All-heappush P e xs p a.1)
]

precedes_trans : (a b c : Entry) → precedes a b ≡ true → precedes b c ≡ true → precedes a c ≡ true
unfolding precedes
precedes_trans a b c h k = ground arith

All-precedes :
    (e x : Entry) (xs : List Entry)
    → precedes e x ≡ true
    → All (λ y. precedes x y ≡ true) xs
    → All (λ y. precedes e y ≡ true) xs
All-precedes e x [] h a = tt
All-precedes e x (y ∷ ys) h a = (precedes_trans e x y h a.0, All-precedes e x ys h a.1)

-- Of two entries with different sequence numbers one precedes the other.
precedes_total :
    (e x : Entry) → precedes e x ≡ false → x.sequence < e.sequence → precedes x e ≡ true
unfolding precedes
precedes_total e x h n = ground arith

heappush-IsOrdered :
    (e : Entry) (es : List Entry)
    → IsOrdered es
    → All (λ f. f.sequence < e.sequence) es
    → IsOrdered (heappush e es)
unfolding heappush
heappush-IsOrdered e [] o n = (tt, tt)
heappush-IsOrdered e (x ∷ xs) o n = elim (Bool-cases (precedes e x)) [
  | inl first ↦ rw first ((first, All-precedes e x xs first o.0), o)
  | inr later ↦ rw later (
    All-heappush (λ y. precedes x y ≡ true) e xs (precedes_total e x later n.0) o.0,
    heappush-IsOrdered e xs o.1 n.1,
  )
]

All-suc :
    (n : ℕ) (es : List Entry) → All (λ e. e.sequence < n) es → All (λ e. e.sequence < n + 1) es
All-suc n [] a = tt
All-suc n (e ∷ es) a = (omega arith, All-suc n es a.1)

-- The entry that `submit` pushes.
abbrev pub entry_of : TaskRecord → ℤ → Backend → Entry
entry_of r priority b = record {
  neg_priority = negate priority;
  sequence = b.sequence;
  task_id = r.task_id;
}

-- While the heap is in order, a task with no record is queued behind all pending tasks of the same or a higher priority and in
-- front of all of a lower one, and the others keep their order.
pub submit-Position :
    (r : TaskRecord) (priority : ℤ) (b : Backend)
    → QueueIsValid b
    → get r.task_id b.records ≡ none
    → Position (entry_of r priority b) b.pending (submit r priority b).1.pending
unfolding submit
submit-Position r priority b v new =
    rw new (heappush-Position (entry_of r priority b) b.pending v.ordered v.fresh)

-- Whatever is submitted, accepted or not, the heap stays in order.
pub submit-QueueIsValid :
    (r : TaskRecord) (priority : ℤ) (b : Backend)
    → QueueIsValid b
    → QueueIsValid (submit r priority b).1
unfolding submit
submit-QueueIsValid r priority b v = elim (Bool-cases (contains r.task_id b.records)) [
  | inl old ↦ rw old v
  | inr new ↦
      let e = entry_of r priority b in
      rw new (record {
        ordered = heappush-IsOrdered e b.pending v.ordered v.fresh;
        fresh =
            All-heappush (λ f. f.sequence < b.sequence + 1) e b.pending (omega arith)
              (All-suc b.sequence b.pending v.fresh);
      })
]

-- `e` has the higher priority, or the same one and was submitted earlier.
abbrev pub Ahead : Entry → Entry → Type 0
Ahead e f =
    (e.neg_priority <ℤ f.neg_priority)
    ⊎ ((e.neg_priority ≤ℤ f.neg_priority) × (e.sequence < f.sequence))

All-Ahead : (e : Entry) (es : List Entry) → All (λ f. precedes e f ≡ true) es → All (Ahead e) es
unfolding precedes
All-Ahead e [] a = tt
All-Ahead e (f ∷ fs) a = (ground (arith, a.0), All-Ahead e fs a.1)

-- What a call of `pull` returns and leaves.
pub record Pulled (b : Backend) : Type 0 where
  pub head : Entry
  pub rest : List Entry
  pub was : b.pending ≡ head ∷ rest
  pub result : pull b ≡ (some head.task_id, record b { pending = rest })
  pub first : All (Ahead head) rest
  pub valid : QueueIsValid (record b { pending = rest })

-- While the heap is in order: `pull` on an empty heap returns nothing and changes nothing; on any other it takes off one entry
-- that is ahead of all the others, and the heap stays in order.
pub pull_lem : (b : Backend) → QueueIsValid b → ((b.pending ≡ []) × (pull b ≡ (none, b))) ⊎ Pulled b
unfolding pull
pull_lem b v = go b.pending refl
  where
    go : (es : List Entry) → b.pending ≡ es → ((b.pending ≡ []) × (pull b ≡ (none, b))) ⊎ Pulled b
    go [] e = inl (e, rw e)
    go (x ∷ xs) e =
        let o : IsOrdered (x ∷ xs) = rw e at v.ordered in
        let n : All (λ f. f.sequence < b.sequence) (x ∷ xs) = rw e at v.fresh in
        inr (record {
          head = x;
          rest = xs;
          was = e;
          result = rw e;
          first = All-Ahead x xs o.0;
          valid = record { ordered = o.1; fresh = n.1 };
        })
