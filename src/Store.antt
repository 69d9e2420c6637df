-- ===== src/Store.antt =====
-- adapters/outbound/persistence/jsonl_session_repository.py and core/events/domain/event.py: the logs
-- on disk, one JSONL file for each session, whose lines are dicts; and events as they are read back.
-- What the standard library makes of ids and instants, `str(UUID)` and `isoformat()`, and their
-- inverses enter as parameters; an instant without a zone is read as one of UTC.
pub mod Append
pub mod Purge
use mad_edge.Prelude.{
  ℕ, ◌+◌, ◌*◌, ◌≡◌, Bool, true, false, not, ◌&&◌, ◌||◌, Option, none, some, List, [], ◌∷◌, ◌++◌,
  String, str_eq, str_ltb, starts_with, ◌<>◌, elem, keep, ltb, ◌==◌, if◌then◌else◌,
}
use mad_edge.Prelude.Dict.{Dict, lookup, insert, remove, keys, has}
use mad_edge.Prelude.Sorting.{sort_by}
use mad_edge.Json.{Json, null, flag, num, text, arr, obj, Items, nil, cons, Fields, end, field, get}
use mad_edge.Policy.{day}

pub record Formats : Type 0 where
  pub uuid_text : ℕ → String
  pub parse_uuid : String → Option ℕ
  pub iso_text : ℕ → String
  pub parse_iso : String → Option ℕ
  pub parse_uuid_text : (id : ℕ) → parse_uuid (uuid_text id) ≡ some id
  pub parse_iso_text : (t : ℕ) → parse_iso (iso_text t) ≡ some t
  pub uuid_text_some : (id : ℕ) → str_eq (uuid_text id) "" ≡ false
  pub iso_text_some : (t : ℕ) → str_eq (iso_text t) "" ≡ false

-- d[key] = value, and d.update(other)
unfoldable pub set_field : String → Json → Fields → Fields
set_field k v end = field k v end
set_field k v (field j w fs) = if str_eq j k then field j v fs else field j w (set_field k v fs)

unfoldable pub update_fields : Fields → Fields → Fields
unfolding set_field
update_fields d end = d
update_fields d (field k v fs) = update_fields (set_field k v d) fs

-- The logs, by the session id in the file's name.
abbrev pub Logs : Type 0
Logs = Dict (List Fields)

abbrev pub lines_or_none : Option (List Fields) → List Fields
lines_or_none none = []
lines_or_none (some lines) = lines

-- `get_events` and `exists`
unfoldable pub read_events : Logs → String → List Fields
read_events logs sid = lines_or_none (lookup sid logs)

unfoldable pub log_exists : Logs → String → Bool
log_exists logs sid = has sid logs

-- `startswith("__")`: a reserved internal stream.
abbrev is_reserved : String → Bool
is_reserved sid = starts_with sid "__"

unfoldable list_session_ids : Logs → List String
unfolding sort_by
list_session_ids logs = sort_by str_ltb (keep (λ sid. not (is_reserved sid)) (keys logs))

-- An event as the rest of the program sees it.
pub record StoredEvent : Type 0 where
  pub event_id : Option ℕ
  pub session_id : String
  pub type : Json
  pub body : Fields
  pub timestamp : ℕ

-- `_META_KEYS`
abbrev pub meta_keys : List String
meta_keys = "event_id" ∷ "type" ∷ "timestamp" ∷ []

-- {k: v for k, v in raw.items() if k not in names}
unfoldable pub without : List String → Fields → Fields
without names end = end
without names (field k v fs) =
    if elem k names then without names fs else field k v (without names fs)

abbrev or_json : Option Json → Json → Json
or_json none d = d
or_json (some j) d = j

-- The order of the file names.
abbrev pub path_ltb : String → String → Bool
path_ltb s t = str_ltb (s <> ".jsonl") (t <> ".jsonl")

unfoldable pub delete_logs : List String → Logs → Logs
delete_logs [] logs = logs
delete_logs (sid ∷ sids) logs = delete_logs sids (remove sid logs)

-- The test of one file: not reserved, and the last event before `now - retention_days`.
abbrev pub before_cutoff : ℕ → ℕ → Option ℕ → Bool
before_cutoff now retention_days none = false
before_cutoff now retention_days (some last) = ltb (last + retention_days * day) now

module _ (f : Formats) where
  -- The dict that `emit` writes.
  unfoldable pub event_line : ℕ → String → ℕ → Fields → Fields
  unfolding update_fields
  event_line id type at body =
      update_fields
        (field "event_id" (text (f.uuid_text id))
          (field "type" (text type) (field "timestamp" (text (f.iso_text at)) end)))
        body

  -- `append_event`, with the id and the time that are minted.
  unfoldable pub append_event : String → ℕ → String → ℕ → Fields → Logs → Logs
  unfolding read_events event_line
  append_event sid id type at body logs =
      insert sid (read_events logs sid ++ event_line id type at body ∷ []) logs

  -- `event_from_persisted`; `none` is the ValueError of an id or a time that cannot be parsed.
  abbrev read_id : Option Json → Option (Option ℕ)
  read_id (some (text s)) =
      if str_eq s ""
      then some none
      else elim (f.parse_uuid s) [ none ↦ none | some id ↦ some (some id) ]
  read_id _ = some none

  abbrev read_time : Option Json → Option ℕ
  read_time (some (text s)) = if str_eq s "" then some 0 else f.parse_iso s
  read_time _ = some 0

  abbrev pub stored : String → Fields → Option (Option ℕ) → Option ℕ → Option StoredEvent
  stored sid raw (some event_id) (some at) = some (record {
    event_id = event_id;
    session_id = sid;
    type = or_json (get "type" raw) (text "");
    body = without meta_keys raw;
    timestamp = at;
  })
  stored sid raw _ _ = none

  unfoldable pub event_from_persisted : Fields → String → Option StoredEvent
  unfolding get without
  event_from_persisted raw sid =
      stored sid raw (read_id (get "event_id" raw)) (read_time (get "timestamp" raw))

  -- `_last_event_timestamp`: the last one that can be parsed.
  abbrev pub later_time : Option Json → Option ℕ → Option ℕ
  later_time (some (text s)) last = elim (f.parse_iso s) [ none ↦ last | some t ↦ some t ]
  later_time _ last = last

  unfoldable pub last_timestamp : List Fields → Option ℕ → Option ℕ
  unfolding get
  last_timestamp [] last = last
  last_timestamp (e ∷ es) last = last_timestamp es (later_time (get "timestamp" e) last)

  unfoldable pub is_expired : ℕ → ℕ → Logs → String → Bool
  unfolding last_timestamp read_events
  is_expired now retention_days logs sid =
      not (is_reserved sid)
      && before_cutoff now retention_days (last_timestamp (read_events logs sid) none)

  -- `purge_expired_logs`: the logs that are left, and the ids of those that were deleted. A number of
  -- days below 1 is 0.
  unfoldable pub purge_expired_logs : ℕ → ℕ → Logs → Logs × List String
  unfolding is_expired delete_logs sort_by
  purge_expired_logs now retention_days logs =
      if retention_days == 0
      then (logs, [])
      else (let purged = keep (is_expired now retention_days logs) (sort_by path_ltb (keys logs)) in
          (delete_logs purged logs, purged))
