-- ===== src/App/Memory/Sort.antt =====
-- `sort.Slice` with a comparison under which distinct entries are in a strict order: the result
-- does not depend on the order of the input, so neither on the algorithm.
use mathlib.Core.List.Permᴰ
use mathlib.Core.List.{Permᴰ}
use mathlib.Core.Path.{subst₂}
use browser_automation_byte.Prelude.{
  Bool, true, false, ◌≡◌, refl, sym, ap, ◌∙◌, ◌⊎◌, inl, inr, List, [], ◌∷◌, if◌then◌else◌, arith,
  length, suc, All, String, Bool-cases, ◌≢◌,
}

module _ {ℓ} {V : Type ℓ} (before : V → V → Bool) where
  unfoldable pub insert_sorted : V → List V → List V
  insert_sorted x [] = x ∷ []
  insert_sorted x (y ∷ ys) = if before x y then x ∷ y ∷ ys else y ∷ insert_sorted x ys

  unfoldable pub sort : List V → List V
  unfolding insert_sorted
  sort [] = []
  sort (x ∷ xs) = insert_sorted x (sort xs)

  length-insert_sorted : (x : V) (ys : List V) → length (insert_sorted x ys) ≡ suc (length ys)
  unfolding insert_sorted
  length-insert_sorted x [] = refl
  length-insert_sorted x (y ∷ ys) = ground (arith, length-insert_sorted x ys)

  pub length-sort : (xs : List V) → length (sort xs) ≡ length xs
  unfolding sort
  length-sort [] = refl
  length-sort (x ∷ xs) = length-insert_sorted x (sort xs) ∙ ap suc (length-sort xs)

  insert_sorted-perm : (x : V) (ys : List V) → Permᴰ (x ∷ ys) (insert_sorted x ys)
  unfolding insert_sorted
  insert_sorted-perm x [] = Permᴰ.cons refl Permᴰ.nil
  insert_sorted-perm x (y ∷ ys) = elim (Bool-cases (before x y)) [
    | inl first ↦ rw (first, insert_sorted) (Permᴰ.refl (x ∷ y ∷ ys))
    | inr later ↦
        rw (later, insert_sorted)
          (Permᴰ.trans (Permᴰ.swap refl refl) (Permᴰ.cons refl (insert_sorted-perm x ys)))
  ]

  -- The sorted list holds the entries of the input, each as often.
  pub sort-perm : (xs : List V) → Permᴰ xs (sort xs)
  unfolding sort
  sort-perm [] = Permᴰ.nil
  sort-perm (x ∷ xs) = Permᴰ.trans (Permᴰ.cons refl (sort-perm xs)) (insert_sorted-perm x (sort xs))

-- Entries with different keys are in a strict order.
pub record IsStrict {ℓ} {V : Type ℓ} (key : V → String) (before : V → V → Bool) : Type ℓ where
  pub asym : (x y : V) → before x y ≡ true → before y x ≡ false
  pub trans : (x y z : V) → before x y ≡ true → before y z ≡ true → before x z ≡ true
  pub connected : (x y : V) → key x ≢ key y → (before x y ≡ true) ⊎ (before y x ≡ true)

module _ {ℓ} {V : Type ℓ} (key : V → String) where
  -- No two entries have one key.
  abbrev pub AreApart : List V → Type ℓ
  AreApart [] = Unit
  AreApart (x ∷ xs) = All (λ y. key x ≢ key y) xs × AreApart xs

  All-perm :
      (x : V) {xs ys : List V}
      → Permᴰ xs ys
      → All (λ y. key x ≢ key y) xs
      → All (λ y. key x ≢ key y) ys
  All-perm x Permᴰ.nil h = h
  All-perm x (Permᴰ.cons e p) h = (λ k. h.0 (k ∙ sym (ap key e)), All-perm x p h.1)
  All-perm x (Permᴰ.swap e f) h =
      (λ k. h.1.0 (k ∙ sym (ap key f)), (λ k. h.0 (k ∙ sym (ap key e)), h.1.1))
  All-perm x (Permᴰ.trans p q) h = All-perm x q (All-perm x p h)

  AreApart-perm : {xs ys : List V} → Permᴰ xs ys → AreApart xs → AreApart ys
  AreApart-perm Permᴰ.nil d = d
  AreApart-perm (Permᴰ.cons {b = b} {l₁ = xs} e p) d =
      (All-perm b p (rw (← e) d.0), AreApart-perm p d.1)
  AreApart-perm (Permᴰ.swap {l = l} e f) d =
      subst₂ (λ x y. AreApart (x ∷ y ∷ l)) f e ((λ k. d.0.0 (sym k), d.1.0), (d.0.1, d.1.1))
  AreApart-perm (Permᴰ.trans p q) d = AreApart-perm q (AreApart-perm p d)

module _ {ℓ} {V : Type ℓ} {key : V → String} {before : V → V → Bool}
    (strict : IsStrict key before) where
  insert_sorted_comm :
      (a b : V) (l : List V)
      → key a ≢ key b
      → insert_sorted before a (insert_sorted before b l)
        ≡ insert_sorted before b (insert_sorted before a l)
  unfolding insert_sorted
  insert_sorted_comm a b [] d =
      ground (arith, strict.connected a b d, strict.asym a b, strict.asym b a)
  insert_sorted_comm a b (c ∷ l) d = ground (
    arith,
    strict.connected a b d,
    strict.asym a b,
    strict.asym b a,
    strict.trans a b c,
    strict.trans b a c,
    insert_sorted_comm a b l d,
  )

  -- Entries with different keys are sorted into one list, in whatever order they come.
  pub sort-perm_eq :
      {xs ys : List V} → Permᴰ xs ys → AreApart key xs → sort before xs ≡ sort before ys
  unfolding sort
  sort-perm_eq Permᴰ.nil d = refl
  sort-perm_eq (Permᴰ.cons e p) d = rw e (ap (insert_sorted before _) (sort-perm_eq p d.1))
  sort-perm_eq (Permᴰ.swap {a = a} {b = b} {l = l} e f) d =
      rw (← e, ← f) (insert_sorted_comm a b (sort before l) d.0.0)
  sort-perm_eq (Permᴰ.trans p q) d = sort-perm_eq p d ∙ sort-perm_eq q (AreApart-perm key p d)

  -- In the sorted list no entry comes before one that stands in front of it.
  abbrev pub IsSorted : List V → Type ℓ
  IsSorted [] = Unit
  IsSorted (x ∷ xs) = All (λ y. before y x ≡ false) xs × IsSorted xs

  All-insert_sorted :
      (x z : V) (ys : List V)
      → before x z ≡ false
      → All (λ y. before y z ≡ false) ys
      → All (λ y. before y z ≡ false) (insert_sorted before x ys)
  unfolding insert_sorted
  All-insert_sorted x z [] h k = (h, tt)
  All-insert_sorted x z (y ∷ ys) h k = ground (arith, All-insert_sorted x z ys h k.1)

  All-weaken :
      (x y : V) (zs : List V)
      → before x y ≡ true
      → All (λ z. before z y ≡ false) zs
      → All (λ z. before z x ≡ false) zs
  All-weaken x y [] h k = tt
  All-weaken x y (z ∷ zs) h k = (ground (arith, strict.trans z x y), All-weaken x y zs h k.1)

  insert_sorted-IsSorted :
      (x : V) (ys : List V) → IsSorted ys → IsSorted (insert_sorted before x ys)
  unfolding insert_sorted
  insert_sorted-IsSorted x [] s = (tt, tt)
  insert_sorted-IsSorted x (y ∷ ys) s = elim (Bool-cases (before x y)) [
    | inl first ↦
        rw (first, insert_sorted) ((strict.asym x y first, All-weaken x y ys first s.0), (s.0, s.1))
    | inr later ↦
        rw (later, insert_sorted)
          (All-insert_sorted x y ys later s.0, insert_sorted-IsSorted x ys s.1)
  ]

  pub sort-IsSorted : (xs : List V) → IsSorted (sort before xs)
  unfolding sort
  sort-IsSorted [] = tt
  sort-IsSorted (x ∷ xs) = insert_sorted-IsSorted x (sort before xs) (sort-IsSorted xs)
