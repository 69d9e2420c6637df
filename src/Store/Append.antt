-- ===== src/Store/Append.antt =====
-- `append` of adapters/outbound/persistence/jsonl_session_repository.py, and what is read back.
use mad_edge.Prelude.{
  ℕ, ◌≡◌, refl, sym, ap, ◌∙◌, false, none, some, List, [], ◌∷◌, ◌++◌, String, str_eq, str_eq-cases,
  elem, if◌then◌else◌, arith, inl, inr, Bool-cases,
}
use mad_edge.Prelude.Dict.{lookup-insert}
use mad_edge.Json.{Json, text, Fields, end, field, get}
use mad_edge.Store.{
  Formats, set_field, update_fields, Logs, read_events, meta_keys, without, event_line,
  append_event, event_from_persisted,
}

-- The keys are different from each other and from the names.
abbrev pub AllNew : List String → Fields → Type 0
AllNew names end = Unit
AllNew names (field k v fs) = (elem k names ≡ false) × AllNew (k ∷ names) fs

abbrev append_fields : Fields → Fields → Fields
append_fields end gs = gs
append_fields (field k v fs) gs = field k v (append_fields fs gs)

append_fields_assoc :
    (d : Fields) (k : String) (v : Json) (fs : Fields)
    → append_fields (append_fields d (field k v end)) fs ≡ append_fields d (field k v fs)
append_fields_assoc end k v fs = refl
append_fields_assoc (field j w ds) k v fs = ap (field j w) (append_fields_assoc ds k v fs)

set_field-new :
    (k : String) (v : Json) (d : Fields)
    → get k d ≡ none
    → set_field k v d ≡ append_fields d (field k v end)
unfolding set_field get
set_field-new k v end h = refl
set_field-new k v (field j w ds) h = elim (Bool-cases (str_eq j k)) [
  | inl e ↦ absurd (ground arith)
  | inr e ↦ rw e (ap (field j w) (set_field-new k v ds (ground arith)))
]

get-append_new :
    (j k : String) (v : Json) (d : Fields)
    → get j d ≡ none
    → str_eq k j ≡ false
    → get j (append_fields d (field k v end)) ≡ none
unfolding get
get-append_new j k v end h e = rw e refl
get-append_new j k v (field i w ds) h e = elim (Bool-cases (str_eq i j)) [
  | inl q ↦ absurd (ground arith)
  | inr q ↦ rw q (get-append_new j k v ds (ground arith) e)
]

-- Python's `update` with new keys appends.
update_fields-new :
    (names : List String) (d body : Fields)
    → ((k : String) → elem k names ≡ false → get k d ≡ none)
    → AllNew names body
    → update_fields d body ≡ append_fields d body
unfolding update_fields
update_fields-new names d end h n = sym (nothing d)
  where
    nothing : (d : Fields) → append_fields d end ≡ d
    nothing end = refl
    nothing (field k v fs) = ap (field k v) (nothing fs)
update_fields-new names d (field k v fs) h n =
    ap (λ (x : Fields). update_fields x fs) (set_field-new k v d (h k n.0))
    ∙ update_fields-new (k ∷ names) (append_fields d (field k v end)) fs
        (λ j e. get-append_new j k v d (h j (ground arith)) (ground arith)) n.1
    ∙ append_fields_assoc d k v fs

without-new :
    (metas names : List String) (body : Fields)
    → ((k : String) → elem k names ≡ false → elem k metas ≡ false)
    → AllNew names body
    → without metas body ≡ body
unfolding without
without-new metas names end h n = refl
without-new metas names (field k v fs) h n =
    rw (h k n.0) (ap (field k v) (without-new metas (k ∷ names) fs (λ j e. h j (ground arith)) n.1))

module _ (f : Formats) where
  meta_fields : ℕ → String → ℕ → Fields
  meta_fields id type at =
      field "event_id" (text (f.uuid_text id))
        (field "type" (text type) (field "timestamp" (text (f.iso_text at)) end))

  pub event_line-append :
      (id : ℕ) (type : String) (at : ℕ) (body : Fields)
      → AllNew meta_keys body
      → event_line f id type at body
        ≡ field "event_id"
            (text (f.uuid_text id))
            (field "type" (text type) (field "timestamp" (text (f.iso_text at)) body))
  unfolding event_line meta_fields
  event_line-append id type at body n =
      update_fields-new meta_keys (meta_fields id type at) body (λ k e. unfold get in ground arith)
        n

  persisted_line :
      (sid : String) (id : ℕ) (type : String) (at : ℕ) (body : Fields)
      → AllNew meta_keys body
      → event_from_persisted f (event_line f id type at body) sid
        ≡ some (record {
          event_id = some id;
          session_id = sid;
          type = text type;
          body = body;
          timestamp = at;
        })
  unfolding event_from_persisted
  persisted_line sid id type at body n =
      rw
        (
          event_line-append id type at body n,
          f.uuid_text_some id,
          f.parse_uuid_text id,
          f.iso_text_some at,
          f.parse_iso_text at,
          without-new meta_keys meta_keys body (λ k e. e) n,
        )
        refl

pub read_events-append_event :
    (f : Formats) (logs : Logs) (sid : String) (id : ℕ) (type : String) (at : ℕ) (body : Fields)
    (other : String)
    → read_events (append_event f sid id type at body logs) other ≡ (
        if str_eq sid other
        then read_events logs other ++ event_line f id type at body ∷ []
        else read_events logs other)
unfolding append_event
read_events-append_event f logs sid id type at body other = elim (str_eq-cases sid other) [
  | inl (e, same) ↦
      rw
        (
          lookup-insert sid other (read_events logs sid ++ event_line f id type at body ∷ []) logs,
          e,
        )
        (ap (λ k. read_events logs k ++ event_line f id type at body ∷ []) same)
  | inr (e, ne) ↦
      rw
        (
          lookup-insert sid other (read_events logs sid ++ event_line f id type at body ∷ []) logs,
          e,
        )
        refl
]

-- Appending an event whose data has keys of its own adds one line at the end of the session's log and
-- leaves every other log as it was; and the line, read back, is the event with the id, the type, the
-- data and the time that were written.
pub append_event_lem :
    (f : Formats) (logs : Logs) (sid : String) (id : ℕ) (type : String) (at : ℕ) (body : Fields)
    → AllNew meta_keys body
    → ((other : String)
        → read_events (append_event f sid id type at body logs) other ≡ (
            if str_eq sid other
            then read_events logs other ++ event_line f id type at body ∷ []
            else read_events logs other))
      × (event_from_persisted f (event_line f id type at body) sid
          ≡ some (record {
            event_id = some id;
            session_id = sid;
            type = text type;
            body = body;
            timestamp = at;
          }))
append_event_lem f logs sid id type at body n =
    (read_events-append_event f logs sid id type at body, persisted_line f sid id type at body n)
