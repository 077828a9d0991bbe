-- ===== src/Types/Schemas/Tests.antt =====
-- shared/types.ts: the schemas run on a few messages.
use agent_web_mvp.Prelude.{◌≡◌, refl, true, [], ◌∷◌, none, some, arith}
use agent_web_mvp.Prelude.JsMap.{get}
use agent_web_mvp.Types.Values.{Json, null, string, object, end, field}
use agent_web_mvp.Types.AuthDetect.{js_length}
use agent_web_mvp.Types.{user, assistant, DaemonClientMessage, daemon_message, daemon_dir_listing}
use agent_web_mvp.Types.Schemas.{lookup, daemon_client_message_schema, message_schema}
use agent_web_mvp.Types.Schemas.Checks.{zod}
use agent_web_mvp.Types.Schemas.Bounds.{IsWithin}
use agent_web_mvp.Types.Schemas.RoundTrip.{encode, schema-encode}

abbrev listing : DaemonClientMessage
listing =
    daemon_dir_listing "r1" "/work" (some "/") (record { name = "src"; is_dir = true } ∷ []) none

listing-IsWithin : IsWithin listing
unfolding js_length
listing-IsWithin = omega arith

schema-encode_example : daemon_client_message_schema zod (encode listing) ≡ some listing
schema-encode_example = schema-encode zod listing listing-IsWithin

-- The order of the keys does not matter, and a key that the schema does not name is dropped.
abbrev reply_frame : Json
reply_frame = object (
    field "text" (string "done") (
      field "extra" null (
        field "role" (string "assistant")
          (field "type" (string "daemon_message") (field "runId" (string "run1") end)))))

reply_accepted :
    daemon_client_message_schema zod reply_frame
    ≡ some (daemon_message "run1" assistant "done" none)
unfolding zod daemon_client_message_schema message_schema lookup get js_length
reply_accepted = refl

-- A message with no run id is refused.
empty_run_id_refused :
    daemon_client_message_schema zod (encode (daemon_message "" user "hi" none)) ≡ none
unfolding zod daemon_client_message_schema message_schema encode lookup get js_length
empty_run_id_refused = refl
