-- ===== src/TaskStore/Listing.antt =====
-- internal/agent/taskstore.go: List and its page tokens.
use a2abridge.Prelude.{
  ltb, leb, ◌==◌, if◌then◌else◌, length, get_elem?, take, drop, filter, ℤ, pos, negsuc, Text,
  text_eq, ℕ, zero, suc, ◌-◌, Bool, true, ◌&&◌, ◌||◌, Option, none, some, List, [], ◌∷◌, ◌++◌, map,
}
use a2abridge.Strings.Order.{text_lt}
use a2abridge.A2a.{Stamp, Message, Task}
use a2abridge.TaskStore.Data.{
  default_list_page_size, max_list_page_size, default_list_history_length, TtlEntry, Tasks,
  clone_failed, invalid_request, invalid_params, Result, ok, err, ◌>>=◌, Sdk,
}

pub record ListRequest : Type 0 where
  pub page_size : ℤ
  pub context_id : Text
  pub status : Text
  pub status_after : Option ℕ  -- StatusTimestampAfter
  pub page_token : Text
  pub history_length : Option ℤ
  pub include_artifacts : Bool

pub record ListResponse : Type 0 where
  pub tasks : List Task
  pub total_size : ℕ
  pub page_size : ℕ
  pub next_page_token : Text

-- base64.URLEncoding, and Time.Format and time.Parse at RFC 3339 with nanoseconds.
pub record TokenCodec : Type 0 where
  pub encode64 : Text → Text
  pub decode64 : Text → Option Text
  pub format_nano : ℕ → Text
  pub parse_nano : Text → Option ℕ

abbrev pub separator : ℕ
separator = b'_'

-- strings.Cut(s, "_")
unfoldable pub cut : Text → Option (Text × Text)
cut [] = none
cut (c ∷ s) =
    let rest = cut s in
    if c == separator
    then some ([], s)
    else elim rest [ none ↦ none | some (a, b) ↦ some (c ∷ a, b) ]

unfoldable pub encode_page_token : TokenCodec → ℕ → Text → Text
encode_page_token codec updated id = codec.encode64 (codec.format_nano updated ++ separator ∷ id)

unfoldable pub decode_cut : TokenCodec → Option (Text × Text) → Result (ℕ × Text)
decode_cut codec none = err invalid_params
decode_cut codec (some (ts, [])) = err invalid_params
decode_cut codec (some (ts, c ∷ id)) = elim (codec.parse_nano ts) [
  | none ↦ err invalid_params
  | some updated ↦ ok (updated, c ∷ id)
]

unfoldable pub decode_page_token : TokenCodec → Text → Result (ℕ × Text)
unfolding decode_cut cut
decode_page_token codec token = elim (codec.decode64 token) [
  | none ↦ err invalid_params
  | some raw ↦ decode_cut codec (cut raw)
]

-- The key that List sorts by, newest first, and the strict order of the list: SortFunc's comparison
-- is negative, and the cursor test of sort.Search.
abbrev pub Key : Type 0
Key = ℕ × Text

abbrev pub key : TtlEntry → Key
key e = (e.last_updated, e.task.id)

unfoldable pub comes_before : Key → Key → Bool
unfolding text_lt
comes_before a b = ltb b.0 a.0 || (b.0 == a.0 && text_lt b.1 a.1)

-- slices.SortFunc; the keys differ, so every sorting algorithm has this result.
unfoldable pub insert_entry : TtlEntry → List TtlEntry → List TtlEntry
unfolding comes_before
insert_entry e [] = e ∷ []
insert_entry e (x ∷ l) = if comes_before (key e) (key x) then e ∷ x ∷ l else x ∷ insert_entry e l

unfoldable pub sort_entries : List TtlEntry → List TtlEntry
unfolding insert_entry
sort_entries [] = []
sort_entries (e ∷ l) = insert_entry e (sort_entries l)

-- filtered[start:] with start from sort.Search: what follows the cursor in the sorted list.
unfoldable pub after_cursor : Key → List TtlEntry → List TtlEntry
unfolding comes_before
after_cursor c [] = []
after_cursor c (e ∷ l) =
    let rest = after_cursor c l in if comes_before c (key e) then e ∷ l else rest

unfoldable pub timestamp_ok : Option ℕ → Option Stamp → Bool
timestamp_ok none t = true
timestamp_ok (some since) none = true
timestamp_ok (some since) (some t) = leb since t.instant

unfoldable pub matches_list_filter : Text → ListRequest → TtlEntry → Bool
unfolding timestamp_ok
matches_list_filter unspecified req e =
    (text_eq req.context_id [] || text_eq e.task.context_id req.context_id)
    && ((text_eq req.status unspecified || text_eq e.task.status.state req.status)
        && timestamp_ok req.status_after e.task.status.timestamp)

unfoldable pub valid_page_size : ℤ → Result ℕ
valid_page_size (pos zero) = ok default_list_page_size
valid_page_size (pos (suc n)) =
    if ltb max_list_page_size (suc n) then err invalid_request else ok (suc n)
valid_page_size (negsuc n) = err invalid_request

unfoldable pub history_limit : Option ℤ → ℕ
history_limit none = default_list_history_length
history_limit (some (pos n)) = n
history_limit (some (negsuc n)) = 0

-- The last `n` messages.
abbrev last_messages : ℕ → List Message → List Message
last_messages n l = drop (length l - n) l

-- A clone, cut to the request.
unfoldable pub present : ListRequest → Task → Task
unfolding history_limit
present req cp = record cp {
  history = last_messages (history_limit req.history_length) cp.history;
  artifacts = if req.include_artifacts then cp.artifacts else [];
}

unfoldable pub present_all : Sdk → ListRequest → List TtlEntry → Result (List Task)
unfolding present
present_all sdk req [] = ok []
present_all sdk req (e ∷ l) = elim (sdk.clone e.task) [
  | none ↦ err clone_failed
  | some cp ↦ do rest ← present_all sdk req l; ok (present req cp ∷ rest)
]

unfoldable pub page_start : TokenCodec → Text → List TtlEntry → Result (List TtlEntry)
unfolding decode_page_token after_cursor
page_start codec [] filtered = ok filtered
page_start codec (c ∷ token) filtered = do
  cursor ← decode_page_token codec (c ∷ token)
  ok (after_cursor cursor filtered)

-- The token after a page: none if the page holds all that is left.
unfoldable pub next_token : TokenCodec → ℕ → List TtlEntry → Text
unfolding encode_page_token
next_token codec size page =
    if ltb size (length page)
    then elim (get_elem? page (size - 1)) [
      | none ↦ []
      | some last ↦ encode_page_token codec last.last_updated last.task.id
    ]
    else []

unfoldable pub filtered_entries : Text → ListRequest → Tasks → List TtlEntry
unfolding sort_entries matches_list_filter
filtered_entries unspecified req s =
    sort_entries (filter (matches_list_filter unspecified req) (map (λ kv. kv.1) s))

-- List after the checks of the page size.
unfoldable pub list_page : Sdk → TokenCodec → ListRequest → ℕ → List TtlEntry → Result ListResponse
unfolding page_start next_token present_all
list_page sdk codec req size filtered = do
  page ← page_start codec req.page_token filtered
  tasks ← present_all sdk req (take size page)
  ok (record {
    tasks = tasks;
    total_size = length filtered;
    page_size = length tasks;
    next_page_token = next_token codec size page;
  })

unfoldable pub list_tasks : Sdk → TokenCodec → Text → ListRequest → Tasks → Result ListResponse
unfolding valid_page_size list_page filtered_entries
list_tasks sdk codec unspecified req s = do
  size ← valid_page_size req.page_size
  list_page sdk codec req size (filtered_entries unspecified req s)
