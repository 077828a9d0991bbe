-- ===== src/Agents/Claude/Agreement.antt =====
-- server/agents/claude.ts beside client-go/helpers/claude-bridge.mjs: the runner of the server and the bridge
-- of the daemon translate the same messages of the agent SDK.
use agent_web_mvp.Prelude.{
  ◌≡◌, refl, ap, ◌∙◌, String, true, false, List, [], ◌∷◌, ◌++◌, Option, none, some, truthy,
}
use agent_web_mvp.Agents.{on_done}
use agent_web_mvp.Agents.Claude
use agent_web_mvp.Agents.Claude.{
  Block, text, tool_use, tool_result, SdkMessage, system, assistant, user, result, tokens, SdkStep,
  yields, asks, on_sdk_step, on_sdk_steps,
}
use agent_web_mvp.Agents.Claude.Bridge.{
  Line, message, permission_request, done, Inbound, prompt, Bridge, started, newer, said, step, run,
  Happening, reads, sdk_yields, sdk_asks, sdk_ends, sdk_throws,
}
use agent_web_mvp.Agents.Claude.Says.{spoken_all, resumes, happenings, ending}
use agent_web_mvp.Agents.Claude.Translation.{steps-say}

end_lem :
    (failure : Option String) (b : Bridge)
    → b.initial_prompt ≡ true
    → b.exited ≡ false
    → b.aborted ≡ false
    → (step (ending failure) b).written ≡ b.written ++ done b.sdk_session_id failure ∷ []
unfolding step Claude.Bridge.act Claude.Bridge.on_end Claude.Bridge.on_throw Claude.Bridge.exit
end_lem none b p x a = rw x (rw p refl)
end_lem (some error) b p x a = rw x (rw p (rw a refl))

run-append : (hs ks : List Happening) (b : Bridge) → run (hs ++ ks) b ≡ run ks (run hs b)
unfolding run
run-append [] ks b = refl
run-append (h ∷ hs) ks b = run-append hs ks (step h b)

abbrev pub whole_run :
    (said cwd : String) (resume model : Option String)
    → List (SdkStep String)
    → Option String
    → Bridge
whole_run said cwd resume model ss failure =
    run (reads (some (prompt said cwd resume model)) ∷ happenings ss ++ ending failure ∷ []) started

-- For one prompt and one behaviour of the agent SDK (any messages and permission requests, then an end or
-- an exception, without a cancel), the bridge of the daemon writes exactly the lines of the
-- callbacks that the runner of the server makes: a message for a message, a request for a request, in the same
-- order, and then one `done`, which has the last resume token of these callbacks (else the
-- one that the prompt came with) and the exception's text. The one difference is that an
-- onError before the end is a system message of the bridge.
pub bridge_agrees :
    (said cwd : String) (resume model : Option String) (ss : List (SdkStep String))
    (failure : Option String)
    → ((whole_run said cwd resume model ss failure).written
        ≡ spoken_all (on_sdk_steps ss)
          ++ done (resumes (truthy resume) (on_sdk_steps ss)) failure ∷ [])
      × (Claude.send true ss failure ≡ on_sdk_steps ss ++ (Claude.failed failure ++ on_done ∷ []))
unfolding run step Claude.Bridge.act Claude.Bridge.on_line Claude.send
bridge_agrees said cwd resume model ss failure =
    let b = record started { initial_prompt = true; sdk_session_id = truthy resume } in
    let h = steps-say ss b refl refl in
    (
      ap (λ c. c.written) (run-append (happenings ss) (ending failure ∷ []) b)
          ∙ end_lem failure (run (happenings ss) b) h.prompted h.runs h.goes_on
          ∙ ap (λ o. (run (happenings ss) b).written ++ done o failure ∷ []) h.session
          ∙ ap (λ l. l ++ done (resumes (truthy resume) (on_sdk_steps ss)) failure ∷ []) h.writes,
      refl,
    )
