-- ===== src/App/Memory/Table.antt =====
-- One half of `MemoryStore`: the entries by id and the index of request ids. `create`, `get`,
-- `get_by_request_id`, `list` and `update` are the methods of memory_session.go on sessions and of
-- memory_task.go on tasks, which differ by what `Entity` holds. A method runs under the store's
-- lock, so it is one step. A stored value is a copy, and so is a returned one.
pub mod Invariant
pub mod Contract
use browser_automation_byte.Prelude.{
  ℕ, ◌+◌, String, Bool, true, false, Option, none, some, List, [], ◌∷◌, map, length, take, drop,
  Map, lookup, insert, leb, ltb, ◌&&◌, ◌==◌, if◌then◌else◌, str_eq, not,
}
use browser_automation_byte.Prelude.Int.{ℤ}
use browser_automation_byte.Core.Errors.{GoError, new_error}
use browser_automation_byte.Core.Errors.Code
use browser_automation_byte.Core.Reply.{Reply, ok, fail, ◌>>=◌}
use browser_automation_byte.Core.Times.{Time, is_after, proto_time}
use browser_automation_byte.Core.Pages.{parse_page_token, normalize_page_size, page_token}
use browser_automation_byte.Core.Ports.{ListResult}
use browser_automation_byte.App.Memory.Texts.{str_ltb}
use browser_automation_byte.App.Memory.Sort.{sort}

-- What the methods on sessions and those on tasks differ by: the getters, the time by which
-- entries are listed, and the errors.
pub record Entity (V : Type 0) : Type 0 where
  pub id : V → String
  pub request_id : V → String
  pub listed_at : V → Option Time
  pub id_required : GoError
  pub already_exists : GoError
  pub not_found : GoError

pub record Table (V : Type 0) : Type 0 where
  pub entries : Map V
  pub request_ids : Map String

abbrev pub request_id_required : GoError
request_id_required = new_error Code.validation_failed "request_id is required" false

abbrev pub request_id_exists : GoError
request_id_exists = new_error Code.validation_failed "request_id already exists" false

module _ {V : Type 0} where
  -- `NewMemoryStore`
  unfoldable pub empty : Table V
  empty = record { entries = []; request_ids = [] }

  -- The values of the map, in the order in which a loop over it comes upon them.
  abbrev pub values : Map V → List V
  values [] = []
  values ((k, v) ∷ m) = v ∷ values m

  -- The loop that collects the entries which a filter admits.
  unfoldable pub matching : (V → Bool) → List V → List V
  matching admits [] = []
  matching admits (v ∷ vs) = if admits v then v ∷ matching admits vs else matching admits vs

  -- One page of a list of entries: the end of `ListSessions` and of `ListTasks`.
  abbrev pub page : List V → ℕ → ℕ → ListResult V
  page items offset size =
      if leb (length items) offset
      then record { items = []; next_page_token = "" }
      else if ltb (offset + size) (length items)
      then record {
        items = take size (drop offset items);
        next_page_token = page_token (offset + size);
      }
      else record { items = drop offset items; next_page_token = "" }

module _ {V : Type 0} (entity : Entity V) where
  open entity use {id, request_id, listed_at, id_required, already_exists, not_found}

  -- The comparison that `sort.Slice` is given.
  unfoldable pub listed_before : V → V → Bool
  unfolding proto_time
  listed_before x y =
      let left = proto_time (listed_at x) in
      let right = proto_time (listed_at y) in
      if not (left == right) then is_after left right else str_ltb (id x) (id y)

  -- `s.requestID[v.GetRequestId()] = v.GetId()` where the request id is not empty
  abbrev index_request : V → Map String → Map String
  index_request v ids =
      if not (str_eq (request_id v) "") then insert (request_id v) (id v) ids else ids

  abbrev is_present {ℓ} : {A : Type ℓ} → Option A → Bool
  is_present none = false
  is_present (some a) = true

  -- `CreateSession` and `CreateTask`, on a value that is not nil
  unfoldable pub create_value : V → Table V → Option GoError × Table V
  create_value v t =
      if str_eq (id v) ""
      then (some id_required, t)
      else if is_present (lookup (id v) t.entries)
      then (some already_exists, t)
      else if not (str_eq (request_id v) "") && is_present (lookup (request_id v) t.request_ids)
      then (some request_id_exists, t)
      else (
        none,
        record { entries = insert (id v) v t.entries; request_ids = index_request v t.request_ids },
      )

  unfoldable pub create : Option V → Table V → Option GoError × Table V
  unfolding create_value
  create none t = (some id_required, t)
  create (some v) t = create_value v t

  abbrev found_or : Option V → Reply V
  found_or none = fail not_found
  found_or (some v) = ok v

  -- `GetSession` and `GetTask`
  unfoldable pub get : String → Table V → Reply V
  get key t = if str_eq key "" then fail id_required else found_or (lookup key t.entries)

  -- A request id that is indexed gives the entry, or nil if there is none under the indexed id.
  abbrev indexed : Option String → Map V → Reply (Option V)
  indexed none entries = fail not_found
  indexed (some key) entries = ok (lookup key entries)

  -- `GetSessionByRequestID` and `GetTaskByRequestID`
  unfoldable pub get_by_request_id : String → Table V → Reply (Option V)
  get_by_request_id r t =
      if str_eq r "" then fail request_id_required else indexed (lookup r t.request_ids) t.entries

  -- `UpdateSession` and `UpdateTask`, on a value that is not nil
  unfoldable pub update_value : V → Table V → Option GoError × Table V
  update_value v t =
      if str_eq (id v) ""
      then (some id_required, t)
      else if not (is_present (lookup (id v) t.entries))
      then (some not_found, t)
      else (
        none,
        record { entries = insert (id v) v t.entries; request_ids = index_request v t.request_ids },
      )

  unfoldable pub update : Option V → Table V → Option GoError × Table V
  unfolding update_value
  update none t = (some id_required, t)
  update (some v) t = update_value v t

  -- `ListSessions` and `ListTasks` on the values of the map in some order
  unfoldable pub list_values : (V → Bool) → List V → ℤ → String → Reply (ListResult V)
  unfolding matching listed_before
  list_values admits vs size token = do
    offset ← parse_page_token token
    ok (page (sort listed_before (matching admits vs)) offset (normalize_page_size size))

  unfoldable pub list : (V → Bool) → ℤ → String → Table V → Reply (ListResult V)
  unfolding list_values
  list admits size token t = list_values admits (values t.entries) size token

  -- One round of the loops of `NewMemoryStoreWithData`
  unfoldable pub load_value : Option V → Table V → Table V
  load_value none t = t
  load_value (some v) t = record {
    entries = insert (id v) v t.entries;
    request_ids = index_request v t.request_ids;
  }

  -- `NewMemoryStoreWithData`
  unfoldable pub load : List (Option V) → Table V → Table V
  unfolding load_value
  load [] t = t
  load (v ∷ vs) t = load vs (load_value v t)
