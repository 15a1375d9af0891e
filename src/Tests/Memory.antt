-- ===== src/Tests/Memory.antt =====
-- The memory store of internal/app and page tokens, on two sessions.
use mathlib.Core.List.{Permᴰ}
use browser_automation_byte.Prelude.{
  ℕ, suc, ◌≤◌, ◌<◌, String, Bool, true, false, ◌≡◌, ◌⊎◌, refl, none, some, [], ◌∷◌, length, insert,
  arith,
}
use browser_automation_byte.Prelude.Int.{pos, is_positive}
use browser_automation_byte.Core.Reply.{ok}
use browser_automation_byte.Core.Messages.{Session, SessionStatus}
use browser_automation_byte.Core.Pages.{
  parse_page_token, page_token, normalize_page_size, max_page_size, parse_page_token-page_token,
  normalize_page_size_bounds,
}
use browser_automation_byte.App.Memory.Sort.{sort, insert_sorted}
use browser_automation_byte.App.Memory.Table.{
  Table, values, matching, listed_before, list, list_values, load, load_value, empty,
}
use browser_automation_byte.App.Memory.Table.Invariant.{IsConsistent, load-empty-IsConsistent}
use browser_automation_byte.App.Memory.Listing.{list-perm}
use browser_automation_byte.App.Memory.Paging.{walk, walk-list}
use browser_automation_byte.App.Memory.Store.{session_entity}

abbrev session : String → String → ℕ → Session
session id request_id updated = record {
  session_id = id;
  request_id = request_id;
  status = SessionStatus.running;
  profile = none;
  last_error = none;
  artifacts = [];
  labels = [];
  created_at = none;
  started_at = none;
  updated_at = some updated;
  stopped_at = none;
  expires_at = none;
}

abbrev old : Session
old = session "a" "r1" 1

abbrev recent : Session
recent = session "b" "" 2

abbrev table : Table Session
table = record { entries = ("a", old) ∷ ("b", recent) ∷ []; request_ids = ("r1", "a") ∷ [] }

abbrev any : Session → Bool
any v = true

table-IsConsistent : IsConsistent session_entity table
unfolding load load_value empty insert
table-IsConsistent = load-empty-IsConsistent session_entity (some old ∷ some recent ∷ [])

list-perm_example :
    list_values session_entity any (recent ∷ old ∷ []) (pos 1) ""
    ≡ list session_entity any (pos 1) "" table
list-perm_example =
    list-perm session_entity table any (pos 1) "" (recent ∷ old ∷ []) table-IsConsistent
      (Permᴰ.swap refl refl)

walk-list_example :
    walk
      (λ token. list session_entity any (pos 1) token table)
      (suc (length (sort (listed_before session_entity) (matching any (values table.entries)))))
      ""
    ≡ ok (sort (listed_before session_entity) (matching any (values table.entries)))
unfolding matching sort insert_sorted listed_before
walk-list_example = walk-list session_entity table any (pos 1) (ground arith)

parse_page_token-page_token_example : parse_page_token (page_token 120) ≡ ok 120
parse_page_token-page_token_example = parse_page_token-page_token 120 (omega arith)

normalize_page_size_bounds_example :
    (1 ≤ normalize_page_size (pos 500))
    × (normalize_page_size (pos 500) ≤ max_page_size)
    × ((normalize_page_size (pos 500) ≡ 500)
        ⊎ ((is_positive (pos 500) ≡ false) ⊎ (max_page_size < 500)))
normalize_page_size_bounds_example = normalize_page_size_bounds (pos 500)
