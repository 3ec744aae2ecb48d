-- ===== src/Loader/Entrypoints.antt =====
-- Which entrypoints `load_handler` accepts.
use Prim.Native.Char.{Char, code}
use Prim.Native.String.{String}
use text.Mathlib.TextEquality.{Char-path}
use text.Mathlib.TextLemmas.{nil-append, cons-append}
use infly.Prelude.{
  ℕ, ◌≡◌, ◌≢◌, refl, sym, ap, ◌∙◌, ◌||◌, List, [], ◌∷◌, arith, Bool-cases, inl, inr, ◌==◌,
  if◌then◌else◌, All, subst,
}
use infly.Prelude.Exec.{ok, raise}
use infly.Prelude.Text.{◌⊕◌, split}
use infly.Core.Errors.{Exception, Outcome}
use infly.Handlers.{HandlerDefinition}
use infly.Core.Contracts.{Mapping}
use infly.Loader.{
  Handler, Imports, is_empty, malformed, load_parts, load_handler, load_from, Attribute, absent,
  uncallable, factory, Instance, handler, shapeless, Import, module_found, module_not_found,
  import_raised, check_instance, call_factory,
}

-- The parts put together again, with a separator between two.
join : String → List String → String
join sep [] = ""
join sep (x ∷ []) = x
join sep (x ∷ y ∷ ys) = x ⊕ sep ⊕ join sep (y ∷ ys)

-- A list of parts is never empty.
split_parts : (k : ℕ) (s : String) → (x : String) × (xs : List String) × (split k s ≡ x ∷ xs)
unfolding split
split_parts k String.[] = ("", [], refl)
split_parts k (String.◌∷◌ c s) =
    let (x, xs, e) = split_parts k s in
    elim (Bool-cases (code c == k)) [
      | inl sep ↦ ("", split k s, rw sep refl)
      | inr more ↦ (String.◌∷◌ c x, xs, rw (more, e) refl)
    ]

join-single : (sep x : String) → join sep (x ∷ []) ≡ x
unfolding join
join-single sep x = refl

join_front :
    (sep : String) (c : Char) (x : String) (xs : List String)
    → join sep (String.◌∷◌ c x ∷ xs) ≡ String.◌∷◌ c (join sep (x ∷ xs))
unfolding join
join_front sep c x [] = refl
join_front sep c x (y ∷ ys) = cons-append c x (sep ⊕ join sep (y ∷ ys))

join_empty_front :
    (k : Char) (x : String) (xs : List String)
    → join (String.◌∷◌ k "") ("" ∷ x ∷ xs) ≡ String.◌∷◌ k (join (String.◌∷◌ k "") (x ∷ xs))
unfolding join
join_empty_front k x xs =
    let rest = join (String.◌∷◌ k "") (x ∷ xs) in
    nil-append (String.◌∷◌ k "" ⊕ rest)
    ∙ cons-append k "" rest
    ∙ ap (String.◌∷◌ k) (nil-append rest)

-- Splitting on a character loses nothing.
join-split : (k : Char) (s : String) → join (String.◌∷◌ k "") (split (code k) s) ≡ s
unfolding split
join-split k String.[] = join-single (String.◌∷◌ k "") ""
join-split k (String.◌∷◌ c s) =
    let (x, xs, e) = split_parts (code k) s in
    let ih : join (String.◌∷◌ k "") (x ∷ xs) ≡ s =
      ap (join (String.◌∷◌ k "")) (sym e) ∙ join-split k s in
    elim (Bool-cases (code c == code k)) [
      | inl sep ↦
          let same : c ≡ k = Char-path c k (ground (arith, sep)) in
          rw (sep, e)
            (join_empty_front k x xs
              ∙ ap (String.◌∷◌ k) ih
              ∙ ap (λ (d : Char). String.◌∷◌ d s) (sym same))
      | inr more ↦ rw (more, e) (join_front (String.◌∷◌ k "") c x xs ∙ ap (String.◌∷◌ c) ih)
    ]

-- No character of the text is a separator.
pub Lacks : (sep : ℕ) → String → Type 0
Lacks sep String.[] = Unit {0}
Lacks sep (String.◌∷◌ c s) = (code c ≢ sep) × Lacks sep s

split-Lacks : (k : ℕ) (s : String) → All (Lacks k) (split k s)
unfolding split Lacks
split-Lacks k String.[] = (tt, tt)
split-Lacks k (String.◌∷◌ c s) =
    let (x, xs, e) = split_parts k s in
    let ih : All (Lacks k) (x ∷ xs) = subst (All (Lacks k)) e (split-Lacks k s) in
    elim (Bool-cases (code c == k)) [
      | inl sep ↦ rw sep (tt, split-Lacks k s)
      | inr more ↦ rw (more, e) ((ground (arith, more), ih.0), ih.1)
    ]

-- The import of the module gives one with the attribute, which is a factory that, called with the
-- context and the arguments of the definition, returns the handler.
pub record Built (imports : Imports) (d : HandlerDefinition) (module_name symbol_name : String)
    (h : Handler) : Type 0 where
  pub attributes : String → Attribute
  pub create : (init_context init_kwargs : Mapping) → Outcome Instance
  pub imported : imports module_name ≡ module_found attributes
  pub named : attributes symbol_name ≡ factory create
  pub created : create d.init_context d.init_kwargs ≡ ok (handler h)

-- What an accepted entrypoint is: a module and a symbol, with one colon, which is between them.
pub record Accepted (imports : Imports) (d : HandlerDefinition) (h : Handler) : Type 0 where
  pub module_name : String
  pub symbol_name : String
  pub form : d.entrypoint ≡ module_name ⊕ ":" ⊕ symbol_name
  pub whole_module : Lacks b':' module_name
  pub whole_symbol : Lacks b':' symbol_name
  pub some_module : module_name ≢ ""
  pub some_symbol : symbol_name ≢ ""
  pub built : Built imports d module_name symbol_name h

checked :
    (d : HandlerDefinition) (m s : String) (o : Outcome Instance) (h : Handler)
    → check_instance d m s o ≡ ok h
    → o ≡ ok (handler h)
unfolding check_instance
checked d m s (raise e) h r = absurd cc
checked d m s (ok shapeless) h r = absurd cc
checked d m s (ok (handler g)) h r = cc

called :
    (d : HandlerDefinition) (m s : String) (a : Attribute) (h : Handler)
    → call_factory d m s a ≡ ok h
    → (f : (Mapping → Mapping → Outcome Instance)) × (a ≡ factory f)
      × (f d.init_context d.init_kwargs ≡ ok (handler h))
unfolding call_factory
called d m s absent h r = absurd cc
called d m s uncallable h r = absurd cc
called d m s (factory f) h r = (f, refl, checked d m s (f d.init_context d.init_kwargs) h r)

load_from-Built :
    (imports : Imports) (d : HandlerDefinition) (m s : String) (h : Handler) (i : Import)
    → imports m ≡ i
    → load_from d m s i ≡ ok h
    → Built imports d m s h
unfolding load_from
load_from-Built imports d m s h (module_found attributes) e r =
    let (f, named, created) = called d m s (attributes s) h r in
    record { attributes = attributes; create = f; imported = e; named = named; created = created }
load_from-Built imports d m s h (module_not_found name) e r = absurd cc
load_from-Built imports d m s h (import_raised exc) e r = absurd cc

guarded :
    (m s : String) (e : Exception) (rest : Outcome Handler) (h : Handler)
    → (if is_empty m || is_empty s then raise e else rest) ≡ ok h
    → (m ≢ "") × (s ≢ "") × (rest ≡ ok h)
guarded m s e rest h r = ground arith

load_parts-pair :
    (imports : Imports) (d : HandlerDefinition) (m s : String)
    → load_parts imports d (m ∷ s ∷ [])
      ≡ (if is_empty m || is_empty s then raise (malformed d) else load_from d m s (imports m))
unfolding load_parts
load_parts-pair imports d m s = refl

load_parts-Accepted :
    (imports : Imports) (d : HandlerDefinition) (h : Handler) (parts : List String)
    → join ":" parts ≡ d.entrypoint
    → All (Lacks b':') parts
    → load_parts imports d parts ≡ ok h
    → Accepted imports d h
unfolding join load_parts
load_parts-Accepted imports d h [] e whole r = absurd cc
load_parts-Accepted imports d h (m ∷ []) e whole r = absurd cc
load_parts-Accepted imports d h (m ∷ s ∷ []) e whole r =
    let (some_module, some_symbol, loads) =
      guarded m s (malformed d) (load_from d m s (imports m)) h
        (sym (load_parts-pair imports d m s) ∙ r) in
    record {
      module_name = m;
      symbol_name = s;
      form = sym e;
      some_module = some_module;
      some_symbol = some_symbol;
      whole_module = whole.0;
      whole_symbol = whole.1.0;
      built = load_from-Built imports d m s h (imports m) refl loads;
    }
load_parts-Accepted imports d h (m ∷ s ∷ t ∷ ts) e whole r = absurd cc

-- A handler is loaded only from an entrypoint of the form `module:symbol`, both parts not empty and
-- with no colon in them, where the import of the module gives one in which the symbol is a factory
-- that returns the handler when it is called with the context and arguments of the definition.
pub load_handler-Accepted :
    (imports : Imports) (d : HandlerDefinition) (h : Handler)
    → load_handler imports d ≡ ok h
    → Accepted imports d h
unfolding load_handler
load_handler-Accepted imports d h r =
    load_parts-Accepted imports d h (split b':' d.entrypoint) (join-split ":" d.entrypoint)
      (split-Lacks b':' d.entrypoint) r
