-- ===== src/App/Memory/Listing.antt =====
-- Lists of entries: their order, and that no order of the map's iteration shows in them.
use mathlib.Core.Path.{subst, subst₂}
use mathlib.Core.List.Permᴰ
use mathlib.Core.List.{Permᴰ}
use browser_automation_byte.Prelude.{
  String, Bool, true, false, ◌≡◌, refl, sym, inl, inr, ◌≢◌, List, [], ◌∷◌, All, if◌then◌else◌,
  arith, Bool-cases,
}
use browser_automation_byte.Prelude.Int.{ℤ}
use browser_automation_byte.App.Memory.Texts.{str_ltb_trans, str_ltb_asym, str_ltb_connected}
use browser_automation_byte.App.Memory.Sort.{AreApart, IsStrict, sort-perm_eq}
use browser_automation_byte.App.Memory.Table.{
  Entity, Table, values, listed_before, matching, list_values, list,
}
use browser_automation_byte.App.Memory.Table.Invariant.{IsConsistent, values-AreApart}

module _ {V : Type 0} (entity : Entity V) where
  open entity use {id, listed_at}

  -- Entries are listed latest first, and by id where the times are one.
  pub listed_before-IsStrict : IsStrict id (listed_before entity)
  unfolding listed_before
  listed_before-IsStrict = record {
    asym = λ x y h. ground (arith, str_ltb_asym (id x) (id y));
    trans = λ x y z h k. ground (arith, str_ltb_trans (id x) (id y) (id z));
    connected = λ x y n. ground (arith, str_ltb_connected (id x) (id y));
  }

module _ {V : Type 0} where
  abbrev keep : Bool → V → List V → List V
  keep b a l = if b then a ∷ l else l

  keep_perm : (b : Bool) (a : V) {xs ys : List V} → Permᴰ xs ys → Permᴰ (keep b a xs) (keep b a ys)
  keep_perm true a p = Permᴰ.cons refl p
  keep_perm false a p = p

  keep_swap :
      (p q : Bool) (a b : V) (l : List V) → Permᴰ (keep p a (keep q b l)) (keep q b (keep p a l))
  keep_swap true true a b l = Permᴰ.swap refl refl
  keep_swap true false a b l = Permᴰ.refl (a ∷ l)
  keep_swap false true a b l = Permᴰ.refl (b ∷ l)
  keep_swap false false a b l = Permᴰ.refl l

  pub All-matching {κ} :
      (P : V → Type κ) (admits : V → Bool) (vs : List V) → All P vs → All P (matching admits vs)
  unfolding matching
  All-matching P admits [] h = tt
  All-matching P admits (v ∷ vs) h = elim (Bool-cases (admits v)) [
    | inl kept ↦ rw (kept, matching) (h.0, All-matching P admits vs h.1)
    | inr left ↦ rw (left, matching) (All-matching P admits vs h.1)
  ]

  matching-AreApart :
      (id : V → String) (admits : V → Bool) (vs : List V)
      → AreApart id vs
      → AreApart id (matching admits vs)
  unfolding matching
  matching-AreApart id admits [] d = tt
  matching-AreApart id admits (v ∷ vs) d = elim (Bool-cases (admits v)) [
    | inl kept ↦
        rw (kept, matching)
          (All-matching (λ w. id v ≢ id w) admits vs d.0, matching-AreApart id admits vs d.1)
    | inr left ↦ rw (left, matching) (matching-AreApart id admits vs d.1)
  ]

  matching-perm :
      (admits : V → Bool) {xs ys : List V}
      → Permᴰ xs ys
      → Permᴰ (matching admits xs) (matching admits ys)
  unfolding matching
  matching-perm admits Permᴰ.nil = Permᴰ.nil
  matching-perm admits (Permᴰ.cons {a = a} {l₁ = xs} {l₂ = ys} e p) =
      subst
        (λ c.
          Permᴰ (keep (admits a) a (matching admits xs)) (keep (admits c) c (matching admits ys)))
        e (keep_perm (admits a) a (matching-perm admits p))
  matching-perm admits (Permᴰ.swap {a = a} {b = b} {l = l} e f) =
      subst₂
        (λ y x.
          Permᴰ (keep (admits a) a (keep (admits b) b (matching admits l)))
            (keep (admits y) y (keep (admits x) x (matching admits l))))
        f e (keep_swap (admits a) (admits b) a b (matching admits l))
  matching-perm admits (Permᴰ.trans p q) =
      Permᴰ.trans (matching-perm admits p) (matching-perm admits q)

module _ {V : Type 0} (entity : Entity V) where
  open entity use {id}

  list_values-perm :
      (admits : V → Bool) (size : ℤ) (token : String) {xs ys : List V}
      → Permᴰ xs ys
      → AreApart id xs
      → list_values entity admits xs size token ≡ list_values entity admits ys size token
  unfolding list_values
  list_values-perm admits size token {xs} p d =
      rw
        (sort-perm_eq (listed_before-IsStrict entity) (matching-perm admits p)
          (matching-AreApart id admits xs d))
        refl

  -- A list does not depend on the order in which the loop over the map comes upon the entries.
  pub list-perm :
      (t : Table V) (admits : V → Bool) (size : ℤ) (token : String) (vs : List V)
      → IsConsistent entity t
      → Permᴰ (values t.entries) vs
      → list_values entity admits vs size token ≡ list entity admits size token t
  unfolding list
  list-perm t admits size token vs c p =
      sym
        (list_values-perm admits size token p (values-AreApart entity t.entries c.keyed c.distinct))
