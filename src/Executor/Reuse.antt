-- ===== src/Executor/Reuse.antt =====
-- A handler that was loaded is reused.
use infly.Prelude.{
  ◌∙◌, ap, sym, subst, ◌⊎◌, ◌≡◌, refl, Option, none, some, String, arith, Option-cases, inl, inr,
}
use infly.Prelude.Exec.{ok, raise}
use infly.Dict.{Dict, get, insert, get-insert, get-remove}
use infly.Core.Errors.{Exception, Outcome}
use infly.Handlers.{HandlerDefinition}
use infly.Registry
use infly.Loader.{Handler, Imports, load_handler}
use infly.Executor.{
  Executor, activate, drop_previous, installed, load_or_reuse, load_locked, reuse_or, get_or_load,
}

-- The new instance outlives the removal of the one before.
get-drop_previous :
    (previous : Option String) (key : String) (h : Handler) (d : Dict Handler)
    → get key (drop_previous previous key (insert key h d)) ≡ some h
unfolding drop_previous
get-drop_previous none key h d = ground (arith, get-insert key key h d)
get-drop_previous (some p) key h d =
    ground (arith, get-insert key key h d, get-remove p key (insert key h d))

Result-cases :
    {A : Type 0} (r : Outcome A) → ((a : A) × (r ≡ ok a)) ⊎ ((x : Exception) × (r ≡ raise x))
Result-cases (ok a) = inl (a, refl)
Result-cases (raise x) = inr (x, refl)

-- What a call leaves when it returns `h`: the registry as it was, and `h` under the key of the
-- definition.
record Cached (cache_key : HandlerDefinition → Outcome String) (name : String) (h : Handler)
    (e e' : Executor) : Type 0 where
  definition : HandlerDefinition
  key : String
  registered : Registry.get name e.registry ≡ ok definition
  keyed : cache_key definition ≡ ok key
  same : e'.registry ≡ e.registry
  held : get key e'.instances ≡ some h

module _ (cache_key : HandlerDefinition → Outcome String) where
  -- A call that finds the key of the definition among the instances returns that instance.
  hit :
      (imports : Imports) (name : String) (e : Executor) (d : HandlerDefinition) (key : String)
      (h : Handler)
      → Registry.get name e.registry ≡ ok d
      → cache_key d ≡ ok key
      → get key e.instances ≡ some h
      → get_or_load cache_key imports name e ≡ (ok h, activate name key e)
  unfolding get_or_load reuse_or
  hit imports name e d key h a b c = rw (a, b, c) refl

  miss :
      (imports : Imports) (name : String) (e : Executor) (d : HandlerDefinition) (key : String)
      → Registry.get name e.registry ≡ ok d
      → cache_key d ≡ ok key
      → get key e.instances ≡ none
      → get_or_load cache_key imports name e
        ≡ installed cache_key imports name key (load_handler imports d) e
  unfolding get_or_load reuse_or load_locked load_or_reuse
  miss imports name e d key a b c = rw (a, b, c) (rw (a, b, c) refl)

  installed_held :
      (imports : Imports) (name key : String) (d : HandlerDefinition) (o : Outcome Handler)
      (e : Executor) (h : Handler)
      → Registry.get name e.registry ≡ ok d
      → cache_key d ≡ ok key
      → (installed cache_key imports name key o e).0 ≡ ok h
      → Cached cache_key name h e (installed cache_key imports name key o e).1
  unfolding installed
  installed_held imports name key d (raise x) e h a b r = absurd cc
  installed_held imports name key d (ok g) e h a b r = record {
    definition = d;
    key = key;
    registered = a;
    keyed = b;
    same = refl;
    held = get-drop_previous (get name e.active_keys) key g e.instances ∙ cc;
  }

  unregistered :
      (imports : Imports) (name : String) (e : Executor) {x : Exception}
      → Registry.get name e.registry ≡ raise x
      → get_or_load cache_key imports name e ≡ (raise x, e)
  unfolding get_or_load
  unregistered imports name e a = rw a refl

  unkeyed :
      (imports : Imports) (name : String) (e : Executor) (d : HandlerDefinition) {x : Exception}
      → Registry.get name e.registry ≡ ok d
      → cache_key d ≡ raise x
      → get_or_load cache_key imports name e ≡ (raise x, e)
  unfolding get_or_load
  unkeyed imports name e d a b = rw (a, b) refl

  held_with_key :
      (imports : Imports) (name : String) (e : Executor) (h : Handler) (d : HandlerDefinition)
      (key : String)
      → Registry.get name e.registry ≡ ok d
      → cache_key d ≡ ok key
      → (get_or_load cache_key imports name e).0 ≡ ok h
      → Cached cache_key name h e (get_or_load cache_key imports name e).1
  held_with_key imports name e h d key a b r = elim (Option-cases (get key e.instances)) [
    | inl absent ↦
        let step = miss imports name e d key a b absent in
        subst (λ (q : Outcome Handler × Executor). Cached cache_key name h e q.1) (sym step)
          (installed_held imports name key d (load_handler imports d) e h a b
            (ap (λ (q : Outcome Handler × Executor). q.0) (sym step) ∙ r))
    | inr (g, found) ↦
        let step = hit imports name e d key g a b found in
        let same : ok g ≡ ok h = ap (λ (q : Outcome Handler × Executor). q.0) (sym step) ∙ r in
        subst (λ (q : Outcome Handler × Executor). Cached cache_key name h e q.1) (sym step)
          (record {
            definition = d;
            key = key;
            registered = a;
            keyed = b;
            same = refl;
            held = ground (arith, found, same);
          })
  ]

  returned_held :
      (imports : Imports) (name : String) (e : Executor) (h : Handler)
      → (get_or_load cache_key imports name e).0 ≡ ok h
      → Cached cache_key name h e (get_or_load cache_key imports name e).1
  returned_held imports name e h r = elim (Result-cases (Registry.get name e.registry)) [
    | inl (d, a) ↦ elim (Result-cases (cache_key d)) [
      | inl (key, b) ↦ held_with_key imports name e h d key a b r
      | inr (x, b) ↦
          let same : raise x ≡ ok h =
            ap (λ (q : Outcome Handler × Executor). q.0) (sym (unkeyed imports name e d a b)) ∙ r in
          absurd cc
    ]
    | inr (x, a) ↦
        let same : raise x ≡ ok h =
          ap (λ (q : Outcome Handler × Executor). q.0) (sym (unregistered imports name e a)) ∙ r in
        absurd cc
  ]

  -- Once `_get_or_load` has returned a handler, the next call for the same name returns the same
  -- one and loads nothing, whatever the import system has become, whether the first call loaded
  -- the handler or found it, and also if that call removed the instance of an older definition.
  pub get_or_load-get_or_load :
      (imports later : Imports) (name : String) (e : Executor) (h : Handler)
      → (get_or_load cache_key imports name e).0 ≡ ok h
      → ((get_or_load cache_key later name (get_or_load cache_key imports name e).1).0 ≡ ok h)
        × ((get_or_load cache_key later name (get_or_load cache_key imports name e).1).1.instances
            ≡ (get_or_load cache_key imports name e).1.instances)
  get_or_load-get_or_load imports later name e h r =
      let c = returned_held imports name e h r in
      let step =
        hit later name (get_or_load cache_key imports name e).1 c.definition c.key h
          (ap (λ (g : Registry.HandlerRegistry). Registry.get name g) c.same ∙ c.registered) c.keyed
          c.held in
      (
        ap (λ (q : Outcome Handler × Executor). q.0) step,
        ap (λ (q : Outcome Handler × Executor). q.1.instances) step,
      )
