-- ===== src/App/Memory/Listed.antt =====
-- internal/app/memory_session.go, memory_task.go: a list shows the entries as they are stored.
use browser_automation_byte.Prelude.{
  ℕ, zero, suc, String, Bool, ◌≡◌, some, List, [], ◌∷◌, Map, lookup, take, drop, HasDistinctKeys,
  All, eq_iff, inl, inr, ◌≢◌, arith, Bool-cases,
}
use browser_automation_byte.Prelude.Int.{ℤ}
use browser_automation_byte.Core.Reply.{Reply, ok, fail, fail_with, ◌>>=◌}
use browser_automation_byte.Core.Pages.{parse_page_token, normalize_page_size}
use browser_automation_byte.Core.Ports.{ListResult}
use browser_automation_byte.App.Memory.Sort.{insert_sorted, sort}
use browser_automation_byte.App.Memory.Table.{
  Entity, Table, values, listed_before, matching, page, get, list_values, list,
}
use browser_automation_byte.App.Memory.Table.Invariant.{IsConsistent, AllKeyed, All-apart}
use browser_automation_byte.App.Memory.Listing.{All-matching}

module _ {ℓ κ} {A : Type ℓ} (P : A → Type κ) where
  All-take : (n : ℕ) (l : List A) → All P l → All P (take n l)
  All-take zero l h = tt
  All-take (suc n) [] h = tt
  All-take (suc n) (x ∷ xs) h = (h.0, All-take n xs h.1)

  All-drop : (n : ℕ) (l : List A) → All P l → All P (drop n l)
  All-drop zero l h = h
  All-drop (suc n) [] h = tt
  All-drop (suc n) (x ∷ xs) h = All-drop n xs h.1

module _ {V : Type 0} (P : V → Type 0) where
  All-insert_sorted :
      (before : V → V → Bool) (x : V) (l : List V)
      → P x
      → All P l
      → All P (insert_sorted before x l)
  unfolding insert_sorted
  All-insert_sorted before x [] h k = (h, tt)
  All-insert_sorted before x (y ∷ ys) h k = elim (Bool-cases (before x y)) [
    | inl e ↦ rw e (h, k)
    | inr e ↦ rw (e, insert_sorted) (k.0, All-insert_sorted before x ys h k.1)
  ]

  All-sort : (before : V → V → Bool) (l : List V) → All P l → All P (sort before l)
  unfolding sort
  All-sort before [] h = tt
  All-sort before (x ∷ xs) h =
      All-insert_sorted before x (sort before xs) h.0 (All-sort before xs h.1)

  All-page : (l : List V) (offset size : ℕ) → All P l → All P (page l offset size).items
  All-page l offset size h =
      ground (arith, All-drop P offset l h, All-take P size (drop offset l) (All-drop P offset l h))

module _ {V : Type 0} (entity : Entity V) where
  open entity use {id}

  IsStored : Map V → V → Type 0
  IsStored m v = (w : V) → lookup (id v) m ≡ some w → w ≡ v

  head-IsStored : (k : String) (v : V) (m : Map V) → id v ≡ k → IsStored ((k, v) ∷ m) v
  unfolding IsStored lookup
  head-IsStored k v m h w e = ground (arith, eq_iff k (id v))

  tail-IsStored :
      (k : String) (v : V) (m : Map V) (l : List V)
      → All (λ u. k ≢ id u) l
      → All (IsStored m) l
      → All (IsStored ((k, v) ∷ m)) l
  unfolding IsStored lookup
  tail-IsStored k v m [] h j = tt
  tail-IsStored k v m (u ∷ us) h j =
      (λ w e. j.0 w (ground (arith, eq_iff k (id u), h.0)), tail-IsStored k v m us h.1 j.1)

  values-IsStored :
      (m : Map V) → AllKeyed entity m → HasDistinctKeys m → All (IsStored m) (values m)
  values-IsStored [] h d = tt
  values-IsStored ((k, v) ∷ m) h d = (
    head-IsStored k v m h.0,
    tail-IsStored k v m (values m) (All-apart entity k m d.0 h.1) (values-IsStored m h.1 d.1),
  )

  bind-All :
      (P : V → Type 0) (q : Reply ℕ) (f : ℕ → ListResult V) (r : ListResult V)
      → ((n : ℕ) → All P (f n).items)
      → (q >>= λ n. ok (f n)) ≡ ok r
      → All P r.items
  bind-All P (ok n) f r h e = let same : f n ≡ r = cc in rw (← same) (h n)
  bind-All P (fail err) f r h e = cc
  bind-All P (fail_with n err) f r h e = cc

  list_values-All :
      (P : V → Type 0) (admits : V → Bool) (vs : List V) (size : ℤ) (token : String)
      (r : ListResult V)
      → All P vs
      → list_values entity admits vs size token ≡ ok r
      → All P r.items
  unfolding list_values
  list_values-All P admits vs size token r h e =
      bind-All P (parse_page_token token)
        (λ n. page (sort (listed_before entity) (matching admits vs)) n (normalize_page_size size))
        r (λ n. All-page P _ n _ (All-sort P (listed_before entity) _ (All-matching P admits vs h)))
        e

  IsGot : Table V → V → Type 0
  IsGot t v = (w : V) → get entity (id v) t ≡ ok w → w ≡ v

  stored-IsGot : (t : Table V) (v : V) → IsStored t.entries v → IsGot t v
  unfolding IsStored IsGot get
  stored-IsGot t v h w e = h w (ground arith)

  All-IsGot : (t : Table V) (l : List V) → All (IsStored t.entries) l → All (IsGot t) l
  All-IsGot t [] h = tt
  All-IsGot t (v ∷ vs) h = (stored-IsGot t v h.0, All-IsGot t vs h.1)

  -- What is stored under the id of a listed entry is that entry.
  pub list-stored :
      (admits : V → Bool) (size : ℤ) (token : String) (r : ListResult V) (t : Table V)
      → IsConsistent entity t
      → list entity admits size token t ≡ ok r
      → All (λ v. (w : V) → get entity (id v) t ≡ ok w → w ≡ v) r.items
  unfolding list IsGot
  list-stored admits size token r t c e =
      list_values-All (IsGot t) admits (values t.entries) size token r
        (All-IsGot t (values t.entries) (values-IsStored t.entries c.keyed c.distinct)) e
