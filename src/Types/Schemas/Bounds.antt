-- ===== src/Types/Schemas/Bounds.antt =====
-- shared/types.ts: what the bounds in the schemas promise of a message that is accepted.
use agent_web_mvp.Prelude.{
  ℕ, ◌≤◌, ◌≡◌, ◌∙◌, String, Bool, true, false, List, [], ◌∷◌, Option, none, some, subst, ◌>>=◌,
  >>=-eq-some, All, length, ◌==◌, if◌then◌else◌,
}
use agent_web_mvp.Types.Values.{
  Json, null, boolean, natural, other_number, string, array, object, Items, nil, cons, Fields,
}
use agent_web_mvp.Types.{
  Role, DirEntry, DaemonClientMessage, daemon_message, daemon_permission_request, daemon_done,
  daemon_dir_listing, daemon_codex_enable_ack,
}
use agent_web_mvp.Types.Schemas.{
  Zod, HasLength, run_id_max, request_id_max, text_max, tool_name_max, path_max, token_max,
  error_max, entries_max, entry_name_max, each, lookup, fields_of, required, if_there, optional,
  roles, dir_entry_schema, message_schema, permission_request_schema, done_schema,
  dir_listing_schema, codex_enable_ack_schema, union_member, daemon_client_message_schema,
}

-- What holds of a value that is there.
abbrev pub IfSome : {A : Type 0} → (A → Type 0) → Option A → Type 0
IfSome P none = Unit {0}
IfSome P (some a) = P a

abbrev pub IsRecord : Json → Type 0
IsRecord j = (fs : Fields) × (j ≡ object fs)

abbrev pub IsShortEntry : DirEntry → Type 0
IsShortEntry e = HasLength 0 entry_name_max e.name

abbrev pub IsWithin : DaemonClientMessage → Type 0
IsWithin (daemon_message run_id role text meta) =
    HasLength 1 run_id_max run_id × HasLength 0 text_max text × IfSome IsRecord meta
IsWithin (daemon_permission_request run_id request_id tool_name input) =
    HasLength 1 run_id_max run_id
    × HasLength 1 request_id_max request_id
    × HasLength 1 tool_name_max tool_name
IsWithin (daemon_done run_id resume_token error) =
    HasLength 1 run_id_max run_id
    × IfSome (HasLength 0 token_max) resume_token
    × IfSome (HasLength 0 error_max) error
IsWithin (daemon_dir_listing request_id path parent entries error) =
    HasLength 1 request_id_max request_id
    × HasLength 0 path_max path
    × IfSome (HasLength 0 path_max) parent
    × (All IsShortEntry entries × (length entries ≤ entries_max))
    × IfSome (HasLength 0 error_max) error
IsWithin (daemon_codex_enable_ack request_id success error) =
    HasLength 1 request_id_max request_id × IfSome (HasLength 0 error_max) error

module _ {A : Type 0} (P : A → Type 0) (check : Json → Option A)
    (sound : (j : Json) (a : A) → check j ≡ some a → P a) where
  optional-IfSome : (j : Option Json) (o : Option A) → if_there check j ≡ some o → IfSome P o
  optional-IfSome none none e = tt
  optional-IfSome none (some a) e = cc
  optional-IfSome (some j) none e = tt
  optional-IfSome (some j) (some a) e =
      let (b, h, k) = >>=-eq-some (check j) (λ a. some (some a)) e in sound j a (cc (h, k))

  required-sound : (j : Option Json) (a : A) → (j >>= check) ≡ some a → P a
  required-sound j a e = let (b, h, k) = >>=-eq-some j check e in sound b a k

  each-All : (js : Items) (xs : List A) → each check js ≡ some xs → All P xs
  each-All nil [] e = tt
  each-All nil (x ∷ xs) e = cc
  each-All (cons j js) [] e =
      let (b, h, k) = >>=-eq-some (check j) _ e in
      let (c, l, m) = >>=-eq-some (each check js) _ k in cc
  each-All (cons j js) (x ∷ xs) e =
      let (b, h, k) = >>=-eq-some (check j) _ e in
      let (c, l, m) = >>=-eq-some (each check js) _ k in
      (sound j x (cc (h, m)), each-All js xs (cc (l, m)))

module _ (z : Zod) where
  text-HasLength :
      (min max : ℕ) (j : Json) (s : String) → z.string_of min max j ≡ some s → HasLength min max s
  text-HasLength min max j s h = ((z.string_of_iff min max j s).0 h).1

  text_there :
      (min max : ℕ) (k : String) (fs : Fields) (s : String)
      → required k (z.string_of min max) fs ≡ some s
      → HasLength min max s
  text_there min max k fs s =
      required-sound (HasLength min max) (z.string_of min max) (text-HasLength min max)
        (lookup k fs) s

  text_if_there :
      (min max : ℕ) (k : String) (fs : Fields) (o : Option String)
      → optional k (z.string_of min max) fs ≡ some o
      → IfSome (HasLength min max) o
  text_if_there min max k fs o =
      optional-IfSome (HasLength min max) (z.string_of min max) (text-HasLength min max)
        (lookup k fs) o

  entry-IsShortEntry : (j : Json) (e : DirEntry) → dir_entry_schema z j ≡ some e → IsShortEntry e
  unfolding dir_entry_schema
  entry-IsShortEntry j e h =
      let (fs, a, h1) = >>=-eq-some (fields_of j) _ h in
      let (name, b, h2) = >>=-eq-some (required "name" (z.string_of 0 entry_name_max) fs) _ h1 in
      let (dir, c, h3) = >>=-eq-some (required "isDir" z.boolean_of fs) _ h2 in
      subst (IfSome IsShortEntry) h3 (text_there 0 entry_name_max "name" fs name b)

  record_of-IsRecord : (j v : Json) → z.record_of j ≡ some v → IsRecord v
  record_of-IsRecord j v h = let (e, (fs, k)) = (z.record_of_iff j v).0 h in (fs, e ∙ k)

  entries-short :
      (j : Json) (xs : List DirEntry)
      → z.array_of DirEntry entries_max (dir_entry_schema z) j ≡ some xs
      → All IsShortEntry xs × (length xs ≤ entries_max)
  entries-short j xs h =
      let (js, e, k, l) = (z.array_of_iff DirEntry entries_max (dir_entry_schema z) j xs).0 h in
      (each-All IsShortEntry (dir_entry_schema z) entry-IsShortEntry js xs k, l)

  message-IsWithin :
      (fs : Fields) (m : DaemonClientMessage) → message_schema z fs ≡ some m → IsWithin m
  unfolding message_schema
  message-IsWithin fs m h =
      let (run_id, a, h1) = >>=-eq-some (required "runId" (z.string_of 1 run_id_max) fs) _ h in
      let (role, b, h2) = >>=-eq-some (required "role" (z.enum_of Role roles) fs) _ h1 in
      let (text, c, h3) = >>=-eq-some (required "text" (z.string_of 0 text_max) fs) _ h2 in
      let (meta, d, h4) = >>=-eq-some (optional "meta" z.record_of fs) _ h3 in
      subst (IfSome IsWithin) h4 (
        text_there 1 run_id_max "runId" fs run_id a,
        text_there 0 text_max "text" fs text c,
        optional-IfSome IsRecord z.record_of record_of-IsRecord (lookup "meta" fs) meta d,
      )

  permission_request-IsWithin :
      (fs : Fields) (m : DaemonClientMessage) → permission_request_schema z fs ≡ some m → IsWithin m
  unfolding permission_request_schema
  permission_request-IsWithin fs m h =
      let (run_id, a, h1) = >>=-eq-some (required "runId" (z.string_of 1 run_id_max) fs) _ h in
      let (request_id, b, h2) =
        >>=-eq-some (required "requestId" (z.string_of 1 request_id_max) fs) _ h1 in
      let (name, c, h3) = >>=-eq-some (required "toolName" (z.string_of 1 tool_name_max) fs) _ h2 in
      let (input, d, h4) = >>=-eq-some (z.unknown_of (lookup "input" fs)) _ h3 in
      subst (IfSome IsWithin) h4 (
        text_there 1 run_id_max "runId" fs run_id a,
        text_there 1 request_id_max "requestId" fs request_id b,
        text_there 1 tool_name_max "toolName" fs name c,
      )

  done-IsWithin : (fs : Fields) (m : DaemonClientMessage) → done_schema z fs ≡ some m → IsWithin m
  unfolding done_schema
  done-IsWithin fs m h =
      let (run_id, a, h1) = >>=-eq-some (required "runId" (z.string_of 1 run_id_max) fs) _ h in
      let (token, b, h2) = >>=-eq-some (optional "resumeToken" (z.string_of 0 token_max) fs) _ h1 in
      let (error, c, h3) = >>=-eq-some (optional "error" (z.string_of 0 error_max) fs) _ h2 in
      subst (IfSome IsWithin) h3 (
        text_there 1 run_id_max "runId" fs run_id a,
        text_if_there 0 token_max "resumeToken" fs token b,
        text_if_there 0 error_max "error" fs error c,
      )

  dir_listing-IsWithin :
      (fs : Fields) (m : DaemonClientMessage) → dir_listing_schema z fs ≡ some m → IsWithin m
  unfolding dir_listing_schema
  dir_listing-IsWithin fs m h =
      let (request_id, a, h1) =
        >>=-eq-some (required "requestId" (z.string_of 1 request_id_max) fs) _ h in
      let (path, b, h2) = >>=-eq-some (required "path" (z.string_of 0 path_max) fs) _ h1 in
      let (parent, c, h3) = >>=-eq-some (optional "parent" (z.string_of 0 path_max) fs) _ h2 in
      let (entries, d, h4) =
        >>=-eq-some (required "entries" (z.array_of DirEntry entries_max (dir_entry_schema z)) fs) _
          h3 in
      let (error, e, h5) = >>=-eq-some (optional "error" (z.string_of 0 error_max) fs) _ h4 in
      subst (IfSome IsWithin) h5 (
        text_there 1 request_id_max "requestId" fs request_id a,
        text_there 0 path_max "path" fs path b,
        text_if_there 0 path_max "parent" fs parent c,
        required-sound (λ xs. All IsShortEntry xs × (length xs ≤ entries_max))
            (z.array_of DirEntry entries_max (dir_entry_schema z)) entries-short
            (lookup "entries" fs) entries d,
        text_if_there 0 error_max "error" fs error e,
      )

  codex_enable_ack-IsWithin :
      (fs : Fields) (m : DaemonClientMessage) → codex_enable_ack_schema z fs ≡ some m → IsWithin m
  unfolding codex_enable_ack_schema
  codex_enable_ack-IsWithin fs m h =
      let (request_id, a, h1) =
        >>=-eq-some (required "requestId" (z.string_of 1 request_id_max) fs) _ h in
      let (success, b, h2) = >>=-eq-some (required "success" z.boolean_of fs) _ h1 in
      let (error, c, h3) = >>=-eq-some (optional "error" (z.string_of 0 error_max) fs) _ h2 in
      subst (IfSome IsWithin) h3 (
        text_there 1 request_id_max "requestId" fs request_id a,
        text_if_there 0 error_max "error" fs error c,
      )

  tested :
      (b : Bool) (m : DaemonClientMessage) (o p : Option DaemonClientMessage)
      → (o ≡ some m → IsWithin m)
      → (p ≡ some m → IsWithin m)
      → (if b then o else p) ≡ some m
      → IsWithin m
  tested true m o p f g h = f h
  tested false m o p f g h = g h

  member-IsWithin :
      (fs : Fields) (t : Option Json) (m : DaemonClientMessage)
      → union_member z fs t ≡ some m
      → IsWithin m
  unfolding union_member
  member-IsWithin fs none m h = cc
  member-IsWithin fs (some null) m h = cc
  member-IsWithin fs (some (boolean b)) m h = cc
  member-IsWithin fs (some (natural n)) m h = cc
  member-IsWithin fs (some other_number) m h = cc
  member-IsWithin fs (some (array js)) m h = cc
  member-IsWithin fs (some (object gs)) m h = cc
  member-IsWithin fs (some (string t)) m h =
      tested (t == "daemon_message") m _ _ (message-IsWithin fs m)
        (tested (t == "daemon_permission_request") m _ _ (permission_request-IsWithin fs m) (
          tested (t == "daemon_done") m _ _ (done-IsWithin fs m) (
            tested (t == "daemon_dir_listing") m _ _ (dir_listing-IsWithin fs m) (
              tested (t == "daemon_codex_enable_ack") m _ none (codex_enable_ack-IsWithin fs m)
                (λ k. cc)))))
        h

  -- A message that the schema accepts keeps within all its bounds: ids are not empty, each text is no
  -- longer than the schema allows, a `meta` is an object, and a listing has at most 10000 entries with
  -- names of at most 512.
  pub schema-IsWithin :
      (j : Json) (m : DaemonClientMessage) → daemon_client_message_schema z j ≡ some m → IsWithin m
  unfolding daemon_client_message_schema
  schema-IsWithin j m h =
      let (fs, a, k) = >>=-eq-some (fields_of j) _ h in member-IsWithin fs (lookup "type" fs) m k
