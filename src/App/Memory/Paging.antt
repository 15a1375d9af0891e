-- ===== src/App/Memory/Paging.antt =====
-- A client that follows the page tokens of `ListSessions` or `ListTasks`.
use browser_automation_byte.Prelude.{
  ℕ, zero, suc, ◌+◌, ◌-◌, ◌≤◌, ◌<◌, String, Bool, false, ◌≡◌, refl, ap, inl, inr, List, [], ◌++◌,
  length, drop, take-append-drop, drop-drop, drop_all, str_eq, eq_iff, if◌then◌else◌, leb, ltb,
  arith, leb→le, ltb→lt, Bool-cases,
}
use browser_automation_byte.Prelude.Int.{ℤ}
use browser_automation_byte.Prelude.Decimal.{max_int}
use browser_automation_byte.Core.Reply.{Reply, ok, ◌>>=◌}
use browser_automation_byte.Core.Pages.{
  parse_page_token, page_token, normalize_page_size, normalize_page_size_bounds,
  parse_page_token-page_token, page_token-ne-nil,
}
use browser_automation_byte.App.Memory.Sort.{sort}
use browser_automation_byte.Core.Ports.{ListResult}
use browser_automation_byte.App.Memory.Table.{
  Entity, Table, values, listed_before, matching, page, list_values, list,
}

-- A token behind the first page is not the empty one.
named : (n : ℕ) → 0 < n → n ≤ max_int → str_eq (page_token n) "" ≡ false
named n h k = ground (arith, page_token-ne-nil n h k, eq_iff (page_token n) "")

module _ {V : Type 0} where
  -- The pages from a token on, joined, where `pages` answers a request; the fuel bounds their
  -- number.
  unfoldable pub walk : (String → Reply (ListResult V)) → ℕ → String → Reply (List V)
  walk pages zero token = ok []
  walk pages (suc fuel) token = do
    result ← pages token
    let more = walk pages fuel result.next_page_token
    if str_eq result.next_page_token ""
        then ok result.items
        else (do rest ← more; ok (result.items ++ rest))

  -- The answer to a request for a page of the items `l`.
  abbrev answer : List V → ℕ → String → Reply (ListResult V)
  answer l size token = do offset ← parse_page_token token; ok (page l offset size)

  walk-answer :
      (l : List V) (size fuel : ℕ) (token : String) (offset : ℕ)
      → 1 ≤ size
      → length l ≤ max_int
      → parse_page_token token ≡ ok offset
      → length l - offset < fuel
      → walk (answer l size) fuel token ≡ ok (drop offset l)
  unfolding walk
  walk-answer l size zero token offset hs hm e h = absurd (omega arith)
  walk-answer l size (suc fuel) token offset hs hm e h = elim (Bool-cases (leb (length l) offset)) [
    | inl past ↦
        rw (e, walk) (rw (past, walk) (rw (drop_all offset l (leb→le (length l) offset past)) refl))
    | inr inside ↦ elim (Bool-cases (ltb (offset + size) (length l))) [
      | inl more ↦
          let room = ltb→lt (offset + size) (length l) more in
          let rest =
            walk-answer l size fuel (page_token (offset + size)) (offset + size) hs hm
              (parse_page_token-page_token (offset + size) (omega arith)) (omega arith) in
          rw (e, walk)
            (rw (inside, walk)
              (rw (more, walk)
                (rw (named (offset + size) (omega arith) (omega arith), rest)
                  (ap ok (rw (drop-drop offset size l) (take-append-drop size (drop offset l)))))))
      | inr last ↦ rw (e, walk) (rw (inside, walk) (rw (last, walk) refl))
    ]
  ]

module _ {V : Type 0} (entity : Entity V) where
  -- A client that starts without a token and follows the page tokens gets, at any page size, every
  -- entry that the filter admits, once, in the order of the list: the fuel is one page more than
  -- there are entries, and their number fits an `int`.
  pub walk-list :
      (t : Table V) (admits : V → Bool) (size : ℤ)
      → let l = sort (listed_before entity) (matching admits (values t.entries)) in
        length l ≤ max_int
        → walk (λ token. list entity admits size token t) (suc (length l)) "" ≡ ok l
  unfolding list list_values parse_page_token
  walk-list t admits size h =
      let l = sort (listed_before entity) (matching admits (values t.entries)) in
      walk-answer l (normalize_page_size size) (suc (length l)) "" 0
        (normalize_page_size_bounds size).0 h refl (omega arith)
