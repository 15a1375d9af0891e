-- ===== src/App/Memory/Table/Invariant.antt =====
-- What holds of a table between two calls, whatever the calls are.
use mathlib.Core.Path.{subst}
use browser_automation_byte.Prelude.{
  String, ◌≡◌, refl, sym, ◌∙◌, inl, inr, ◌≢◌, Option, none, some, List, [], ◌∷◌, Map, lookup,
  insert, lookup-insert, lookup-insert_self, insert-HasDistinctKeys, HasDistinctKeys, All, str_eq,
  eq_iff, arith, Bool-cases,
}
use browser_automation_byte.App.Memory.Sort.{AreApart}
use browser_automation_byte.App.Memory.Table.{
  Entity, Table, empty, values, create, update, load, index_request,
}

module _ {V : Type 0} (entity : Entity V) where
  open entity use {id, request_id}

  -- Each entry stands under its own id.
  abbrev pub AllKeyed : Map V → Type 0
  AllKeyed [] = Unit
  AllKeyed ((k, v) ∷ m) = (id v ≡ k) × AllKeyed m

  pub record IsConsistent (t : Table V) : Type 0 where
    pub keyed : AllKeyed t.entries
    pub distinct : HasDistinctKeys t.entries
    pub indexed :
        (r i : String) → lookup r t.request_ids ≡ some i → (v : V) × (lookup i t.entries ≡ some v)

  insert-AllKeyed : (v : V) (m : Map V) → AllKeyed m → AllKeyed (insert (id v) v m)
  unfolding insert
  insert-AllKeyed v [] h = (refl, tt)
  insert-AllKeyed v ((k, w) ∷ m) h = ground (arith, insert-AllKeyed v m h.1)

  pub lookup-AllKeyed :
      (k : String) (v : V) (m : Map V) → AllKeyed m → lookup k m ≡ some v → id v ≡ k
  unfolding lookup
  lookup-AllKeyed k v [] h e = cc
  lookup-AllKeyed k v ((j, w) ∷ m) h e = ground (arith, eq_iff j k, lookup-AllKeyed k v m h.1)

  -- What both `create` and `update` do to the table when they succeed.
  abbrev pub store_value : V → Table V → Table V
  store_value v t = record {
    entries = insert (id v) v t.entries;
    request_ids = index_request entity v t.request_ids;
  }

  -- An entry that is there stays there, under a new value perhaps.
  lookup-insert-some :
      (v : V) (i : String) (m : Map V) {w : V}
      → lookup i m ≡ some w
      → (u : V) × (lookup i (insert (id v) v m) ≡ some u)
  lookup-insert-some v i m {w} e = elim (Bool-cases (str_eq (id v) i)) [
    | inl same ↦ (v, lookup-insert (id v) i v m ∙ rw same refl)
    | inr other ↦ (w, lookup-insert (id v) i v m ∙ rw other e)
  ]

  store_value-indexed :
      (v : V) (t : Table V)
      → IsConsistent t
      → (r i : String) → lookup r (store_value v t).request_ids ≡ some i
      → (u : V) × (lookup i (insert (id v) v t.entries) ≡ some u)
  store_value-indexed v t c r i e = elim (Bool-cases (str_eq (request_id v) "")) [
    | inl none_given ↦
        let (w, h) = c.indexed r i (rw none_given at e) in lookup-insert-some v i t.entries h
    | inr given ↦ elim (Bool-cases (str_eq (request_id v) r)) [
      | inl own ↦
          let law = lookup-insert (request_id v) r (id v) t.request_ids in
          let same : id v ≡ i = ground (arith, law) in
          (v, rw (← same) (lookup-insert_self (id v) v t.entries))
      | inr other ↦
          let law = lookup-insert (request_id v) r (id v) t.request_ids in
          let old : lookup r t.request_ids ≡ some i = ground (arith, law) in
          let (w, h) = c.indexed r i old in lookup-insert-some v i t.entries h
    ]
  ]

  pub store_value-IsConsistent :
      (v : V) (t : Table V) → IsConsistent t → IsConsistent (store_value v t)
  store_value-IsConsistent v t c = record {
    keyed = insert-AllKeyed v t.entries c.keyed;
    distinct = insert-HasDistinctKeys (id v) v t.entries c.distinct;
    indexed = store_value-indexed v t c;
  }

  -- Whether it succeeds or fails, `create` leaves a consistent table.
  pub create-IsConsistent :
      (v : Option V) (t : Table V) → IsConsistent t → IsConsistent (create entity v t).1
  unfolding create
  create-IsConsistent none t c = c
  create-IsConsistent (some v) t c = ground (arith, store_value-IsConsistent v t c)

  -- So does `update`.
  pub update-IsConsistent :
      (v : Option V) (t : Table V) → IsConsistent t → IsConsistent (update entity v t).1
  unfolding update
  update-IsConsistent none t c = c
  update-IsConsistent (some v) t c = ground (arith, store_value-IsConsistent v t c)

  load-IsConsistent :
      (vs : List (Option V)) (t : Table V) → IsConsistent t → IsConsistent (load entity vs t)
  unfolding load
  load-IsConsistent [] t c = c
  load-IsConsistent (none ∷ vs) t c = load-IsConsistent vs t c
  load-IsConsistent (some v ∷ vs) t c = load-IsConsistent vs _ (store_value-IsConsistent v t c)

  pub empty-IsConsistent : IsConsistent empty
  unfolding empty lookup
  empty-IsConsistent = record { keyed = tt; distinct = tt; indexed = λ r i e. cc }

  -- A table that is loaded with any values is consistent.
  pub load-empty-IsConsistent : (vs : List (Option V)) → IsConsistent (load entity vs empty)
  load-empty-IsConsistent vs = load-IsConsistent vs empty empty-IsConsistent

  pub All-apart :
      (k : String) (m : Map V) → lookup k m ≡ none → AllKeyed m → All (λ w. k ≢ id w) (values m)
  unfolding lookup
  All-apart k [] f h = tt
  All-apart k ((j, w) ∷ m) f h =
      (λ e. ground (arith, eq_iff j k), All-apart k m (ground (arith, eq_iff j k)) h.1)

  -- The values of a consistent table have different ids.
  pub values-AreApart : (m : Map V) → AllKeyed m → HasDistinctKeys m → AreApart id (values m)
  values-AreApart [] h d = tt
  values-AreApart ((k, v) ∷ m) h d = (
    subst (λ j. All (λ w. j ≢ id w) (values m)) (sym h.0) (All-apart k m d.0 h.1),
    values-AreApart m h.1 d.1,
  )
