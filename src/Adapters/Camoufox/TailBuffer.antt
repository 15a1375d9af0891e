-- ===== src/Adapters/Camoufox/TailBuffer.antt =====
-- internal/adapters/runtime/camoufox/tail_buffer.go: the end of what a process writes. A method runs under
-- the buffer's lock, so it is one step; a byte is a number.
use browser_automation_byte.Prelude.{
  ℕ, suc, ◌+◌, ◌-◌, ◌*◌, ◌≤◌, zero, ◌≡◌, refl, sym, ap, ◌∙◌, List, [], ◌∷◌, ◌++◌, length, drop,
  length-append, length-drop, drop-drop, drop_all, if◌then◌else◌, ltb, arith, Bool-cases, inl, inr,
}
use browser_automation_byte.Prelude.Int.{ℤ, is_positive, to_ℕ}
use mathlib.Core.List.{append_assoc}

-- `tailBuffer`
pub record TailBuffer : Type 0 where
  pub limit : ℕ
  pub data_bytes : List ℕ

-- `newTailBuffer`
unfoldable pub new_tail_buffer : ℤ → TailBuffer
new_tail_buffer limit = record {
  limit = if is_positive limit then to_ℕ limit else 16 * 1024;
  data_bytes = [];
}

-- `Write`
unfoldable pub write : List ℕ → TailBuffer → TailBuffer
write p b =
    let grown = b.data_bytes ++ p in
    if ltb b.limit (length grown)
    then record b { data_bytes = drop (length grown - b.limit) grown }
    else record b { data_bytes = grown }

-- Several writes, one after the other
unfoldable pub write_all : List (List ℕ) → TailBuffer → TailBuffer
unfolding write
write_all [] b = b
write_all (p ∷ ps) b = write_all ps (write p b)

-- The last elements of a list, as many as a number says, or all of them
abbrev pub last_of : ℕ → List ℕ → List ℕ
last_of n xs = drop (length xs - n) xs

abbrev pub concat : List (List ℕ) → List ℕ
concat [] = []
concat (p ∷ ps) = p ++ concat ps

drop-append : (k : ℕ) (xs ys : List ℕ) → k ≤ length xs → drop k xs ++ ys ≡ drop k (xs ++ ys)
drop-append zero xs ys h = refl
drop-append (suc k) [] ys h = absurd (omega arith)
drop-append (suc k) (x ∷ xs) ys h = drop-append k xs ys (omega arith)

last_of-last_of : (n : ℕ) (xs ys : List ℕ) → last_of n (last_of n xs ++ ys) ≡ last_of n (xs ++ ys)
last_of-last_of n xs ys =
    let k = length xs - n in
    let zs = xs ++ ys in
    let moved : drop k xs ++ ys ≡ drop k zs = drop-append k xs ys (omega arith) in
    let counted : k + (length (drop k zs) - n) ≡ length zs - n =
      omega (arith, length-drop k zs, length-append xs ys) in
    ap (last_of n) moved
    ∙ (sym (drop-drop k (length (drop k zs) - n) zs) ∙ ap (λ i. drop i zs) counted)

write-last_of :
    (p : List ℕ) (b : TailBuffer)
    → write p b ≡ record b { data_bytes = last_of b.limit (b.data_bytes ++ p) }
unfolding write
write-last_of p b = elim (Bool-cases (ltb b.limit (length (b.data_bytes ++ p)))) [
  | inl e ↦ rw (e, write) refl
  | inr e ↦
      let none_dropped : length (b.data_bytes ++ p) - b.limit ≡ 0 = ground arith in
      rw (e, write) (rw (none_dropped) refl)
]

append-nil : (xs : List ℕ) → xs ++ [] ≡ xs
append-nil [] = refl
append-nil (x ∷ xs) = ap (λ ys. x ∷ ys) (append-nil xs)

write_all-from :
    (ps : List (List ℕ)) (b : TailBuffer) (all : List ℕ)
    → b.data_bytes ≡ last_of b.limit all
    → (write_all ps b).data_bytes ≡ last_of b.limit (all ++ concat ps)
unfolding write_all
write_all-from [] b all h = h ∙ ap (last_of b.limit) (sym (append-nil all))
write_all-from (p ∷ ps) b all h =
    let written : write p b ≡ record b { data_bytes = last_of b.limit (all ++ p) } =
      write-last_of p b
      ∙ ap (λ xs. record b { data_bytes = xs })
          (ap (λ xs. last_of b.limit (xs ++ p)) h ∙ last_of-last_of b.limit all p) in
    rw (written, write_all)
      (write_all-from ps (record b { data_bytes = last_of b.limit (all ++ p) }) (all ++ p) refl
        ∙ ap (last_of b.limit) (append_assoc all p (concat ps)))

-- Whatever is written to a new buffer, in however many pieces, the buffer holds the end of all of it,
-- as much as its limit allows.
pub write_all-last_of :
    (limit : ℤ) (ps : List (List ℕ))
    → let b = new_tail_buffer limit in (write_all ps b).data_bytes ≡ last_of b.limit (concat ps)
unfolding new_tail_buffer
write_all-last_of limit ps =
    let b = new_tail_buffer limit in
    write_all-from ps b [] (sym (drop_all (0 - b.limit) [] (omega arith)))
