-- ===== src/App/Memory/Table/Contract.antt =====
-- What the methods of the table promise: when they fail, and what a later read sees.
use browser_automation_byte.Prelude.{
  String, not, ◌&&◌, ◌≡◌, refl, ◌⊎◌, ◌↔◌, inl, inr, ◌≢◌, Option, none, some, lookup, lookup-insert,
  lookup-insert_self, str_eq, eq_iff, if◌then◌else◌, arith, Option-cases,
}
use browser_automation_byte.Core.Errors.{GoError}
use browser_automation_byte.Core.Reply.{ok}
use browser_automation_byte.App.Memory.Table.{Entity, Table, create, update, get, get_by_request_id}
use browser_automation_byte.App.Memory.Table.Invariant.{IsConsistent, lookup-AllKeyed}

module _ {V : Type 0} (entity : Entity V) where
  open entity use {id, request_id}

  -- A value can be stored as new exactly when its id is given and free, and its request id is
  -- free or not given.
  pub create_succeeds_iff :
      (v : V) (t : Table V)
      → ((create entity (some v) t).0 ≡ none) ↔ (
          (id v ≢ "")
          × (lookup (id v) t.entries ≡ none)
          × ((request_id v ≡ "") ⊎ (lookup (request_id v) t.request_ids ≡ none)))
  unfolding create
  create_succeeds_iff v t =
      let a = eq_iff (id v) "" in
      let b = eq_iff (request_id v) "" in (λ h. ground (arith, a, b), λ h. ground (arith, a, b))

  -- A call that fails changes nothing.
  pub create_failed :
      (v : Option V) (t : Table V) (e : GoError)
      → (create entity v t).0 ≡ some e
      → (create entity v t).1 ≡ t
  unfolding create
  create_failed none t e h = refl
  create_failed (some v) t e h = ground arith

  pub update_failed :
      (v : Option V) (t : Table V) (e : GoError)
      → (update entity v t).0 ≡ some e
      → (update entity v t).1 ≡ t
  unfolding update
  update_failed none t e h = refl
  update_failed (some v) t e h = ground arith

  -- A stored value is read back under its id, and the other entries are as they were.
  pub get-create :
      (v : V) (t : Table V) (k : String)
      → (create entity (some v) t).0 ≡ none
      → get entity k (create entity (some v) t).1
        ≡ (if str_eq (id v) k then ok v else get entity k t)
  unfolding create get
  get-create v t k h =
      ground
        (arith, eq_iff (id v) "", eq_iff (id v) k, eq_iff k "", lookup-insert (id v) k v t.entries)

  pub get-update :
      (v : V) (t : Table V) (k : String)
      → (update entity (some v) t).0 ≡ none
      → get entity k (update entity (some v) t).1
        ≡ (if str_eq (id v) k then ok v else get entity k t)
  unfolding update get
  get-update v t k h =
      ground
        (arith, eq_iff (id v) "", eq_iff (id v) k, eq_iff k "", lookup-insert (id v) k v t.entries)

  -- An update succeeds exactly when the id is given and stored.
  pub update_succeeds_iff :
      (v : V) (t : Table V)
      → ((update entity (some v) t).0 ≡ none) ↔ ((id v ≢ "") × (lookup (id v) t.entries ≢ none))
  unfolding update
  update_succeeds_iff v t =
      let a = eq_iff (id v) "" in (λ h. ground (arith, a), λ h. ground (arith, a))

  pub get_by_request_id-create_self :
      (v : V) (t : Table V)
      → request_id v ≢ ""
      → (create entity (some v) t).0 ≡ none
      → get_by_request_id entity (request_id v) (create entity (some v) t).1 ≡ ok (some v)
  unfolding create get_by_request_id
  get_by_request_id-create_self v t n h = ground (
    arith,
    eq_iff (request_id v) "",
    lookup-insert_self (request_id v) (id v) t.request_ids,
    lookup-insert_self (id v) v t.entries,
  )

  pub get_by_request_id-update_self :
      (v : V) (t : Table V)
      → request_id v ≢ ""
      → (update entity (some v) t).0 ≡ none
      → get_by_request_id entity (request_id v) (update entity (some v) t).1 ≡ ok (some v)
  unfolding update get_by_request_id
  get_by_request_id-update_self v t n h = ground (
    arith,
    eq_iff (request_id v) "",
    lookup-insert_self (request_id v) (id v) t.request_ids,
    lookup-insert_self (id v) v t.entries,
  )

  -- A request id is never answered by nil.
  pub get_by_request_id-ne-nil :
      (r : String) (t : Table V) → IsConsistent entity t → get_by_request_id entity r t ≢ ok none
  unfolding get_by_request_id
  get_by_request_id-ne-nil r t c h = elim (Option-cases (lookup r t.request_ids)) [
    | inl e ↦ ground arith
    | inr (i, e) ↦ let (v, f) = c.indexed r i e in ground arith
  ]

  -- In a consistent table a new value is found by its request id, and no other request is
  -- answered otherwise than before.
  pub get_by_request_id-create :
      (v : V) (t : Table V) (r : String)
      → IsConsistent entity t
      → (create entity (some v) t).0 ≡ none
      → get_by_request_id entity r (create entity (some v) t).1 ≡ (
          if str_eq (request_id v) r && not (str_eq r "")
          then ok (some v)
          else get_by_request_id entity r t)
  unfolding create get_by_request_id
  get_by_request_id-create v t r c h = elim (Option-cases (lookup r t.request_ids)) [
    | inl e ↦ ground (
      arith,
      eq_iff (request_id v) "",
      eq_iff (request_id v) r,
      eq_iff r "",
      lookup-insert (request_id v) r (id v) t.request_ids,
      lookup-insert_self (id v) v t.entries,
    )
    | inr (i, e) ↦
        let (w, f) = c.indexed r i e in
        ground (
          arith,
          eq_iff (request_id v) "",
          eq_iff (request_id v) r,
          eq_iff r "",
          lookup-insert (request_id v) r (id v) t.request_ids,
          lookup-insert_self (id v) v t.entries,
          eq_iff (id v) i,
          lookup-insert (id v) i v t.entries,
        )
  ]

  -- A new entry takes no id that is in use.
  pub create_fresh :
      (v w : V) (t : Table V) → (create entity (some v) t).0 ≡ none → get entity (id v) t ≢ ok w
  unfolding create get
  create_fresh v w t h g = ground arith

  -- An entry is read under its own id.
  pub id-get :
      (t : Table V) (k : String) (v : V) → IsConsistent entity t → get entity k t ≡ ok v → id v ≡ k
  unfolding get
  id-get t k v c h = lookup-AllKeyed entity k v t.entries c.keyed (ground arith)

  -- The update of an entry that is there succeeds.
  pub update_succeeds :
      (v w : V) (t : Table V) → get entity (id v) t ≡ ok w → (update entity (some v) t).0 ≡ none
  unfolding get update
  update_succeeds v w t h = ground arith
