-- ===== src/Platform/ProxyUrl/Collect/Laws.antt =====
-- `Collect` of internal/platform/proxyurl/proxyurl.go: what each collected value looks like.
use browser_automation_byte.Prelude.{
  String, false, ◌≡◌, ◌≢◌, inl, inr, List, [], ◌∷◌, ◌++◌, All, str_eq, eq_iff, arith, trim_space,
  Bool-cases,
}
use browser_automation_byte.Prelude.Int.{ℤ}
use browser_automation_byte.Prelude.Split.{fields_func}
use browser_automation_byte.Prelude.Trim.{
  any_char, AllChars, any_char-AllChars, trim_space-trim_space, any_char-trim_space,
  fields_func-Lacks,
}
use browser_automation_byte.Core.Commands.{Float64}
use browser_automation_byte.Platform.Urls.{NetUrl}
use browser_automation_byte.Platform.ProxyUrl.Collect.{
  Json, text, float64, int, array, object, other, Items, no_items, item, Fields, no_fields, field,
  is_line_break, trimmed_lines, append_lines, proxy_value_from_map, collect_value, collect_items,
  collect_fields, collect,
}

-- A text with more than white space, without white space at its ends, and without the line breaks, whose
-- codes are 10 and 13.
pub record IsLine (s : String) : Type 0 where
  pub filled : s ≢ ""
  pub trimmed : trim_space s ≡ s
  pub unbroken : AllChars (λ c. (c ≢ 10) × (c ≢ 13)) s

All-append : (P : String → Type 0) (xs ys : List String) → All P xs → All P ys → All P (xs ++ ys)
All-append P [] ys h k = k
All-append P (x ∷ xs) ys h k = (h.0, All-append P xs ys h.1 k)

trimmed_lines-IsLine :
    (lines : List String)
    → All (λ line. any_char is_line_break line ≡ false) lines
    → All IsLine (trimmed_lines lines)
trimmed_lines-IsLine [] h = tt
trimmed_lines-IsLine (line ∷ lines) h = elim (Bool-cases (str_eq (trim_space line) "")) [
  | inl e ↦ rw (e) (trimmed_lines-IsLine lines h.1)
  | inr e ↦
      let kept : IsLine (trim_space line) = record {
        filled = ground (arith, eq_iff (trim_space line) "");
        trimmed = trim_space-trim_space line;
        unbroken =
            any_char-AllChars is_line_break (λ c. (c ≢ 10) × (c ≢ 13)) (trim_space line)
              (λ c k. (ground arith, ground arith)) (any_char-trim_space is_line_break line h.0);
      } in
      rw (e) (kept, trimmed_lines-IsLine lines h.1)
]

append_lines-IsLine : (raw : String) → All IsLine (append_lines raw)
unfolding append_lines
append_lines-IsLine raw =
    trimmed_lines-IsLine (fields_func is_line_break raw) (fields_func-Lacks is_line_break raw)

module _ (net : NetUrl) (truncate : Float64 → ℤ) where
  abbrev collected : Json → List String
  collected = collect_value net truncate

  mutual
    unfolding collect_value

    collect_value-IsLine : (value : Json) → All IsLine (collect_value net truncate value)
    collect_value-IsLine (text raw) = append_lines-IsLine raw
    collect_value-IsLine (float64 x) = tt
    collect_value-IsLine (int z) = tt
    collect_value-IsLine other = tt
    collect_value-IsLine (array items) = collect_items-IsLine items
    collect_value-IsLine (object fields) =
        let rest = collect_fields-IsLine fields in
        elim (Bool-cases (str_eq (proxy_value_from_map net truncate fields) "")) [
          | inl e ↦ rw (e, collect_value) rest
          | inr e ↦
              rw (e, collect_value) (append_lines-IsLine (proxy_value_from_map net truncate fields))
        ]

    collect_items-IsLine : (items : Items) → All IsLine (collect_items net truncate items)
    collect_items-IsLine no_items = tt
    collect_items-IsLine (item value items) =
        All-append IsLine (collect_value net truncate value) (collect_items net truncate items)
          (collect_value-IsLine value) (collect_items-IsLine items)

    collect_fields-IsLine : (fields : Fields) → All IsLine (collect_fields net truncate fields)
    collect_fields-IsLine no_fields = tt
    collect_fields-IsLine (field key value fields) =
        All-append IsLine (collect_value net truncate value) (collect_fields net truncate fields)
          (collect_value-IsLine value) (collect_fields-IsLine fields)

  -- Every value that `Collect` finds is a line of its own: it is not empty, has no white space at its
  -- ends, and has neither a line feed nor a carriage return in it.
  pub collect-IsLine : (value : Json) → All IsLine (collect net truncate value)
  unfolding collect
  collect-IsLine value = collect_value-IsLine value
