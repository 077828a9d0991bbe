-- ===== src/Types/Schemas/RoundTrip.antt =====
-- shared/types.ts: a daemon's message as JSON, and that the schemas read it back.
use agent_web_mvp.Prelude.{
  ℕ, ◌≤◌, ◌≡◌, refl, String, Bool, List, [], ◌∷◌, Option, none, some, All, length,
}
use agent_web_mvp.Prelude.JsMap.{get}
use agent_web_mvp.Types.Values.{
  Json, boolean, string, array, object, Items, nil, cons, Fields, end, field,
}
use agent_web_mvp.Types.{
  Role, user, assistant, system, tool_use, tool_result, DirEntry, DaemonClientMessage,
  daemon_message, daemon_permission_request, daemon_done, daemon_dir_listing,
  daemon_codex_enable_ack,
}
use agent_web_mvp.Types.Schemas.{
  Zod, HasLength, run_id_max, request_id_max, text_max, tool_name_max, path_max, token_max,
  error_max, entries_max, entry_name_max, each, lookup, if_there, roles, dir_entry_schema,
  message_schema, permission_request_schema, done_schema, dir_listing_schema,
  codex_enable_ack_schema, daemon_client_message_schema,
}
use agent_web_mvp.Types.Schemas.Bounds.{IfSome, IsRecord, IsShortEntry, IsWithin}

-- An optional key is left out of the object where it is undefined.
abbrev maybe_field : String → Option Json → Fields → Fields
maybe_field k none fs = fs
maybe_field k (some j) fs = field k j fs

abbrev text_of : Option String → Option Json
text_of none = none
text_of (some s) = some (string s)

abbrev pub role_name : Role → String
role_name user = "user"
role_name assistant = "assistant"
role_name system = "system"
role_name tool_use = "tool_use"
role_name tool_result = "tool_result"

abbrev encode_entries : List DirEntry → Items
encode_entries [] = nil
encode_entries (e ∷ es) =
    cons (object (field "name" (string e.name) (field "isDir" (boolean e.is_dir) end)))
      (encode_entries es)

-- What a daemon writes for a message, as an independent description.
unfoldable pub encode : DaemonClientMessage → Json
encode (daemon_message run_id role text meta) = object (
    field "type" (string "daemon_message") (
      field "runId" (string run_id) (
        field "role" (string (role_name role))
          (field "text" (string text) (maybe_field "meta" meta end)))))
encode (daemon_permission_request run_id request_id tool_name input) = object (
    field "type" (string "daemon_permission_request") (
      field "runId" (string run_id) (
        field "requestId" (string request_id)
          (field "toolName" (string tool_name) (field "input" input end)))))
encode (daemon_done run_id resume_token error) = object (
    field "type" (string "daemon_done") (
      field "runId" (string run_id) (
        maybe_field "resumeToken" (text_of resume_token)
          (maybe_field "error" (text_of error) end))))
encode (daemon_dir_listing request_id path parent entries error) = object (
    field "type" (string "daemon_dir_listing") (
      field "requestId" (string request_id) (
        field "path" (string path) (
          maybe_field "parent" (text_of parent) (
            field "entries" (array (encode_entries entries))
              (maybe_field "error" (text_of error) end))))))
encode (daemon_codex_enable_ack request_id success error) = object (
    field "type" (string "daemon_codex_enable_ack") (
      field "requestId" (string request_id)
        (field "success" (boolean success) (maybe_field "error" (text_of error) end))))

module _ (z : Zod) where
  text-read :
      (min max : ℕ) (s : String) → HasLength min max s → z.string_of min max (string s) ≡ some s
  text-read min max s h = (z.string_of_iff min max (string s) s).1 (refl, h)

  boolean-read : (b : Bool) → z.boolean_of (boolean b) ≡ some b
  boolean-read b = (z.boolean_of_iff (boolean b) b).1 refl

  role-read : (r : Role) → z.enum_of Role roles (string (role_name r)) ≡ some r
  unfolding get
  role-read user = (z.enum_of_iff Role roles _ _).1 (_, refl, refl)
  role-read assistant = (z.enum_of_iff Role roles _ _).1 (_, refl, refl)
  role-read system = (z.enum_of_iff Role roles _ _).1 (_, refl, refl)
  role-read tool_use = (z.enum_of_iff Role roles _ _).1 (_, refl, refl)
  role-read tool_result = (z.enum_of_iff Role roles _ _).1 (_, refl, refl)

  text_if_there-read :
      (min max : ℕ) (o : Option String)
      → IfSome (HasLength min max) o
      → if_there (z.string_of min max) (text_of o) ≡ some o
  text_if_there-read min max none h = refl
  text_if_there-read min max (some s) h = rw (text-read min max s h) refl

  meta-read : (o : Option Json) → IfSome IsRecord o → if_there z.record_of o ≡ some o
  meta-read none h = refl
  meta-read (some j) (fs, e) = rw ((z.record_of_iff j j).1 (refl, (fs, e))) refl

  entry-read :
      (e : DirEntry)
      → IsShortEntry e
      → dir_entry_schema z
          (object (field "name" (string e.name) (field "isDir" (boolean e.is_dir) end)))
        ≡ some e
  unfolding dir_entry_schema lookup
  entry-read e h = rw (text-read 0 entry_name_max e.name h, boolean-read e.is_dir) refl

  entries-each :
      (es : List DirEntry)
      → All IsShortEntry es
      → each (dir_entry_schema z) (encode_entries es) ≡ some es
  entries-each [] h = refl
  entries-each (e ∷ es) (h, hs) = rw (entry-read e h, entries-each es hs) refl

  entries-read :
      (es : List DirEntry)
      → All IsShortEntry es
      → length es ≤ entries_max
      → z.array_of DirEntry entries_max (dir_entry_schema z) (array (encode_entries es)) ≡ some es
  entries-read es h l =
      (z.array_of_iff DirEntry entries_max (dir_entry_schema z) _ es).1
        (encode_entries es, refl, entries-each es h, l)

  message-read :
      (run_id : String) (role : Role) (text : String) (meta : Option Json)
      → IsWithin (daemon_message run_id role text meta)
      → daemon_client_message_schema z (encode (daemon_message run_id role text meta))
        ≡ some (daemon_message run_id role text meta)
  unfolding daemon_client_message_schema message_schema encode lookup
  message-read run_id role text none (a, b, c) =
      rw (text-read 1 run_id_max run_id a, role-read role, text-read 0 text_max text b) refl
  message-read run_id role text (some j) (a, b, c) =
      rw
        (
          text-read 1 run_id_max run_id a,
          role-read role,
          text-read 0 text_max text b,
          meta-read (some j) c,
        )
        refl

  permission_request-read :
      (run_id request_id tool_name : String) (input : Json)
      → IsWithin (daemon_permission_request run_id request_id tool_name input)
      → daemon_client_message_schema z
          (encode (daemon_permission_request run_id request_id tool_name input))
        ≡ some (daemon_permission_request run_id request_id tool_name input)
  unfolding daemon_client_message_schema permission_request_schema encode lookup
  permission_request-read run_id request_id tool_name input (a, b, c) =
      rw
        (
          text-read 1 run_id_max run_id a,
          text-read 1 request_id_max request_id b,
          text-read 1 tool_name_max tool_name c,
          z.unknown_of_lem input,
        )
        refl

  done-read :
      (run_id : String) (resume_token error : Option String)
      → IsWithin (daemon_done run_id resume_token error)
      → daemon_client_message_schema z (encode (daemon_done run_id resume_token error))
        ≡ some (daemon_done run_id resume_token error)
  unfolding daemon_client_message_schema done_schema encode lookup
  done-read run_id none none (a, b, c) = rw (text-read 1 run_id_max run_id a) refl
  done-read run_id none (some e) (a, b, c) =
      rw (text-read 1 run_id_max run_id a, text-read 0 error_max e c) refl
  done-read run_id (some t) none (a, b, c) =
      rw (text-read 1 run_id_max run_id a, text-read 0 token_max t b) refl
  done-read run_id (some t) (some e) (a, b, c) =
      rw (text-read 1 run_id_max run_id a, text-read 0 token_max t b, text-read 0 error_max e c)
        refl

  dir_listing-read :
      (request_id path : String) (parent : Option String) (entries : List DirEntry)
      (error : Option String)
      → IsWithin (daemon_dir_listing request_id path parent entries error)
      → daemon_client_message_schema z
          (encode (daemon_dir_listing request_id path parent entries error))
        ≡ some (daemon_dir_listing request_id path parent entries error)
  unfolding daemon_client_message_schema dir_listing_schema encode lookup
  dir_listing-read request_id path none entries none (a, b, c, (d, l), e) =
      rw
        (
          text-read 1 request_id_max request_id a,
          text-read 0 path_max path b,
          entries-read entries d l,
        )
        refl
  dir_listing-read request_id path none entries (some m) (a, b, c, (d, l), e) =
      rw
        (
          text-read 1 request_id_max request_id a,
          text-read 0 path_max path b,
          entries-read entries d l,
          text-read 0 error_max m e,
        )
        refl
  dir_listing-read request_id path (some p) entries none (a, b, c, (d, l), e) =
      rw
        (
          text-read 1 request_id_max request_id a,
          text-read 0 path_max path b,
          text-read 0 path_max p c,
          entries-read entries d l,
        )
        refl
  dir_listing-read request_id path (some p) entries (some m) (a, b, c, (d, l), e) =
      rw
        (
          text-read 1 request_id_max request_id a,
          text-read 0 path_max path b,
          text-read 0 path_max p c,
          entries-read entries d l,
          text-read 0 error_max m e,
        )
        refl

  codex_enable_ack-read :
      (request_id : String) (success : Bool) (error : Option String)
      → IsWithin (daemon_codex_enable_ack request_id success error)
      → daemon_client_message_schema z (encode (daemon_codex_enable_ack request_id success error))
        ≡ some (daemon_codex_enable_ack request_id success error)
  unfolding daemon_client_message_schema codex_enable_ack_schema encode lookup
  codex_enable_ack-read request_id success none (a, b) =
      rw (text-read 1 request_id_max request_id a, boolean-read success) refl
  codex_enable_ack-read request_id success (some e) (a, b) =
      rw (text-read 1 request_id_max request_id a, boolean-read success, text-read 0 error_max e b)
        refl

  -- A message that keeps within the bounds, written as a JSON object without its undefined keys, is
  -- read back by the schema as the same message, whichever of the five types it has.
  pub schema-encode :
      (m : DaemonClientMessage) → IsWithin m → daemon_client_message_schema z (encode m) ≡ some m
  schema-encode (daemon_message run_id role text meta) h = message-read run_id role text meta h
  schema-encode (daemon_permission_request run_id request_id tool_name input) h =
      permission_request-read run_id request_id tool_name input h
  schema-encode (daemon_done run_id resume_token error) h = done-read run_id resume_token error h
  schema-encode (daemon_dir_listing request_id path parent entries error) h =
      dir_listing-read request_id path parent entries error h
  schema-encode (daemon_codex_enable_ack request_id success error) h =
      codex_enable_ack-read request_id success error h
