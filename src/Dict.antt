-- ===== src/Dict.antt =====
-- Python's `dict` and `set` with text keys, in insertion order: a write to a key that is there
-- keeps its place, a new key goes to the end.
use infly.Prelude.{
  ◌+◌, String, ◌≡◌, refl, Bool, Option, none, some, List, [], ◌∷◌, map, ite, arith, text_dec,
  is_some, length,
}

abbrev pub Dict {ℓ} : Type ℓ → Type ℓ
Dict V = List (String × V)

abbrev pub keys {ℓ} : {V : Type ℓ} → Dict V → List String
keys d = map (λ e. e.0) d

abbrev pub values {ℓ} : {V : Type ℓ} → Dict V → List V
values d = map (λ e. e.1) d

module _ {ℓ} {V : Type ℓ} where
  -- `d.get(k)`
  unfoldable pub get : String → Dict V → Option V
  get k [] = none
  get k ((j, v) ∷ d) = ite (text_dec j k) (some v) (get k d)

  -- `d[k] = v`
  unfoldable pub insert : String → V → Dict V → Dict V
  insert k v [] = (k, v) ∷ []
  insert k v ((j, w) ∷ d) = ite (text_dec j k) ((j, v) ∷ d) ((j, w) ∷ insert k v d)

  -- `d.pop(k, None)`
  unfoldable pub remove : String → Dict V → Dict V
  remove k [] = []
  remove k ((j, w) ∷ d) = let rest = remove k d in ite (text_dec j k) rest ((j, w) ∷ rest)

  -- `k in d`
  abbrev pub contains : String → Dict V → Bool
  contains k d = is_some (get k d)

  pub get-insert :
      (k j : String) (v : V) (d : Dict V)
      → get j (insert k v d) ≡ ite (text_dec k j) (some v) (get j d)
  unfolding get insert
  get-insert k j v [] = refl
  get-insert k j v ((i, w) ∷ d) = ground (arith, get-insert k j v d)

  pub get-remove :
      (k j : String) (d : Dict V) → get j (remove k d) ≡ ite (text_dec k j) none (get j d)
  unfolding get remove
  get-remove k j [] = ground arith
  get-remove k j ((i, w) ∷ d) = ground (arith, get-remove k j d)

  -- No key stands twice.
  abbrev pub IsUnique : Dict V → Type ℓ
  IsUnique [] = Unit
  IsUnique ((k, v) ∷ d) = (get k d ≡ none) × IsUnique d

  pub insert-IsUnique : (k : String) (v : V) (d : Dict V) → IsUnique d → IsUnique (insert k v d)
  unfolding get insert
  insert-IsUnique k v [] u = ground arith
  insert-IsUnique k v ((j, w) ∷ d) u = ground (arith, insert-IsUnique k v d u.1, get-insert k j v d)

  pub remove-IsUnique : (k : String) (d : Dict V) → IsUnique d → IsUnique (remove k d)
  unfolding get remove
  remove-IsUnique k [] u = tt
  remove-IsUnique k ((j, w) ∷ d) u = ground (arith, remove-IsUnique k d u.1, get-remove k j d)

  pub remove_absent : (k : String) (d : Dict V) → get k d ≡ none → remove k d ≡ d
  unfolding get remove
  remove_absent k [] h = refl
  remove_absent k ((j, w) ∷ d) h = ground (arith, remove_absent k d)

  pub length-insert_new :
      (k : String) (v : V) (d : Dict V) → get k d ≡ none → length (insert k v d) ≡ length d + 1
  unfolding get insert
  length-insert_new k v [] h = omega arith
  length-insert_new k v ((j, w) ∷ d) h = ground (arith, length-insert_new k v d)

  pub length-insert_old :
      (k : String) (v w : V) (d : Dict V) → get k d ≡ some w → length (insert k v d) ≡ length d
  unfolding get insert
  length-insert_old k v w [] h = ground arith
  length-insert_old k v w ((j, x) ∷ d) h = ground (arith, length-insert_old k v w d)

  pub length-remove :
      (k : String) (v : V) (d : Dict V)
      → IsUnique d
      → get k d ≡ some v
      → length (remove k d) + 1 ≡ length d
  unfolding get remove
  length-remove k v [] u h = ground arith
  length-remove k v ((j, w) ∷ d) u h = ground (arith, length-remove k v d u.1, remove_absent k d)

pub get-nil {ℓ} : {V : Type ℓ} (k : String) → get {V = V} k [] ≡ none
unfolding get
get-nil k = refl

pub ruleset dict_laws = (get-insert, get-remove, get-nil)

-- A set of texts.
abbrev pub Names : Type 0
Names = Dict (Unit {0})

-- `s.add(k)`
abbrev pub add : String → Names → Names
add k s = insert k tt s
