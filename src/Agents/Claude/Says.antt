-- ===== src/Agents/Claude/Says.antt =====
-- server/agents/claude.ts beside client-go/helpers/claude-bridge.mjs: what a callback of the one says is written by
-- the other.
use agent_web_mvp.Prelude.{
  ◌≡◌, refl, sym, ap, ◌∙◌, String, List, [], ◌∷◌, ◌++◌, Option, none, some, append_assoc,
  append-nil,
}
use agent_web_mvp.Types.{Role}
use agent_web_mvp.Agents.{
  AgentEvent, on_message, on_permission_request, on_error, on_done, on_resume_token,
}
use agent_web_mvp.Agents.Claude.{SdkStep, yields, asks}
use agent_web_mvp.Agents.Claude.Bridge.{
  Line, message, permission_request, Bridge, said, Happening, sdk_yields, sdk_asks, sdk_ends,
  sdk_throws,
}

-- The lines that say what a callback says. An error in the middle of a run becomes a system message.
unfoldable pub spoken : AgentEvent String → List Line
spoken (on_message r t meta) = message r t meta ∷ []
spoken (on_permission_request tool input id) = permission_request id tool input ∷ []
spoken (on_error m) = message Role.system m none ∷ []
spoken on_done = []
spoken (on_resume_token t) = []

unfoldable pub spoken_all : List (AgentEvent String) → List Line
unfolding spoken
spoken_all [] = []
spoken_all (e ∷ es) = spoken e ++ spoken_all es

unfoldable pub resumes : Option String → List (AgentEvent String) → Option String
resumes old [] = old
resumes old (on_message r t meta ∷ es) = resumes old es
resumes old (on_permission_request tool input id ∷ es) = resumes old es
resumes old (on_error m ∷ es) = resumes old es
resumes old (on_done ∷ es) = resumes old es
resumes old (on_resume_token t ∷ es) = resumes (some t) es

abbrev pub happening : SdkStep String → Happening
happening (yields m) = sdk_yields m
happening (asks tool input id) = sdk_asks id tool input

abbrev pub happenings : List (SdkStep String) → List Happening
happenings [] = []
happenings (s ∷ ss) = happening s ∷ happenings ss

abbrev pub ending : Option String → Happening
ending none = sdk_ends
ending (some error) = sdk_throws error

pub spoken_all-append :
    (es fs : List (AgentEvent String)) → spoken_all (es ++ fs) ≡ spoken_all es ++ spoken_all fs
unfolding spoken_all
spoken_all-append [] fs = refl
spoken_all-append (e ∷ es) fs =
    ap (λ ls. spoken e ++ ls) (spoken_all-append es fs) ∙ sym (append_assoc (spoken e) _ _)

pub resumes-append :
    (old : Option String) (es fs : List (AgentEvent String))
    → resumes old (es ++ fs) ≡ resumes (resumes old es) fs
unfolding resumes
resumes-append old [] fs = refl
resumes-append old (on_message r t meta ∷ es) fs = resumes-append old es fs
resumes-append old (on_permission_request tool input id ∷ es) fs = resumes-append old es fs
resumes-append old (on_error m ∷ es) fs = resumes-append old es fs
resumes-append old (on_done ∷ es) fs = resumes-append old es fs
resumes-append old (on_resume_token t ∷ es) fs = resumes-append (some t) es fs

-- `b'` is `b` after the lines and the tokens of the callbacks `es`.
pub record Says (es : List (AgentEvent String)) (b b' : Bridge) : Type 0 where
  pub writes : b'.written ≡ b.written ++ spoken_all es
  pub session : b'.sdk_session_id ≡ resumes b.sdk_session_id es
  pub prompted : b'.initial_prompt ≡ b.initial_prompt
  pub runs : b'.exited ≡ b.exited
  pub goes_on : b'.aborted ≡ b.aborted

pub Says-none : (b : Bridge) → Says [] b b
unfolding spoken_all resumes
Says-none b = record {
  writes = sym (append-nil _);
  session = refl;
  prompted = refl;
  runs = refl;
  goes_on = refl;
}

pub Says-append :
    (es fs : List (AgentEvent String)) (b c d : Bridge)
    → Says es b c
    → Says fs c d
    → Says (es ++ fs) b d
Says-append es fs b c d h k = record {
  writes =
      k.writes
      ∙ ap (λ ls. ls ++ spoken_all fs) h.writes
      ∙ append_assoc b.written (spoken_all es) (spoken_all fs)
      ∙ ap (λ ls. b.written ++ ls) (sym (spoken_all-append es fs));
  session =
      k.session ∙ ap (λ o. resumes o fs) h.session ∙ sym (resumes-append b.sdk_session_id es fs);
  prompted = k.prompted ∙ h.prompted;
  runs = k.runs ∙ h.runs;
  goes_on = k.goes_on ∙ h.goes_on;
}

pub Says-lines :
    (es : List (AgentEvent String)) (ls : List Line) (b : Bridge)
    → spoken_all es ≡ ls
    → ((old : Option String) → resumes old es ≡ old)
    → Says es b (said ls b)
Says-lines es ls b h k = record {
  writes = ap (λ l. b.written ++ l) (sym h);
  session = sym (k b.sdk_session_id);
  prompted = refl;
  runs = refl;
  goes_on = refl;
}
