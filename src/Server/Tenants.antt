-- ===== src/Server/Tenants.antt =====
-- server/index.ts: what one user's browsers and daemons cause in the server as a whole, sessions
-- included, is seen by that user's browsers alone.
use agent_web_mvp.Prelude.{ℕ, ◌≡◌, refl, ◌∙◌, String, List, [], ◌∷◌, All}
use agent_web_mvp.Hub.Isolation
use agent_web_mvp.Hub.Isolation.{by-SendsTo}
use agent_web_mvp.Hub.Forwarding
use agent_web_mvp.Hub.Forwarding.{step-IsOwned}
use agent_web_mvp.Hub.Frames.{SendsTo}
use agent_web_mvp.Agents.Remote.{Remote}
use agent_web_mvp.Agents.Remote.Events.{Ticket}
use agent_web_mvp.Server.{Server}
use agent_web_mvp.Server.System.{
  Event, browser_opens, browser_says, daemon_says, forwards, step, run,
}
use agent_web_mvp.Server.Holding.{IsEnv}
use agent_web_mvp.Server.Sending.{IsSafe, Serves, hub-Serves}
use agent_web_mvp.Server.Serving.{IsWorld, message-Serves}
use agent_web_mvp.Server.Hearing.{deliver-Serves, opening-Serves}

module _ (owner : ℕ → String) (tenant : String → String) where
  -- A browser's socket is used for the user whose cookie opened it, and the registry that a runner
  -- uses has each device for the user to whom its token was given.
  abbrev pub IsGenuine : Event → Type 0
  IsGenuine (browser_opens cwd ws u) = owner ws ≡ u
  IsGenuine (browser_says world ws u msg) = (owner ws ≡ u) × IsWorld owner tenant world
  IsGenuine (daemon_says env dev msg) = IsEnv tenant env
  IsGenuine (forwards e) = agent_web_mvp.Hub.Forwarding.IsGenuine owner e

  -- Whose doing an event is; the timers are nobody's.
  abbrev pub IsBy : String → Event → Type 0
  IsBy u (browser_opens cwd ws w) = w ≡ u
  IsBy u (browser_says world ws w msg) = w ≡ u
  IsBy u (daemon_says env dev msg) = tenant dev ≡ u
  IsBy u (forwards e) = agent_web_mvp.Hub.Isolation.IsBy owner u e

  step-Serves :
      (e : Event) (u : String) (a : Server Remote Ticket)
      → IsGenuine e
      → IsBy u e
      → IsSafe owner tenant a
      → Serves owner tenant u a (step e a)
  unfolding step
  step-Serves (browser_opens cwd ws w) u a g b v =
      rw b (opening-Serves owner tenant cwd ws u a (g ∙ b) v)
  step-Serves (browser_says world ws w msg) u a (o, g) b v =
      rw b (message-Serves owner tenant world g u ws (o ∙ b) msg a v)
  step-Serves (daemon_says env dev msg) u a g b v =
      deliver-Serves owner tenant u env g dev msg b a v
  step-Serves (forwards e) u a g b v = hub-Serves owner tenant u a _ v (record {
    sends = by-SendsTo owner e u a.hub b g v.owned;
    owned = step-IsOwned owner e a.hub g v.owned;
  })

  pub step-IsSafe :
      (e : Event) (a : Server Remote Ticket)
      → IsGenuine e
      → IsSafe owner tenant a
      → IsSafe owner tenant (step e a)
  unfolding step
  step-IsSafe (browser_opens cwd ws w) a g v =
      (step-Serves (browser_opens cwd ws w) w a g refl v).safe
  step-IsSafe (browser_says world ws w msg) a g v =
      (step-Serves (browser_says world ws w msg) w a g refl v).safe
  step-IsSafe (daemon_says env dev msg) a g v =
      (step-Serves (daemon_says env dev msg) (tenant dev) a g refl v).safe
  step-IsSafe (forwards e) a g v = record {
    owned = step-IsOwned owner e a.hub g v.owned;
    held = v.held;
  }

  pub run-IsSafe :
      (es : List Event) (a : Server Remote Ticket)
      → All IsGenuine es
      → IsSafe owner tenant a
      → IsSafe owner tenant (run es a)
  unfolding run
  run-IsSafe [] a g v = v
  run-IsSafe (e ∷ es) a (g, gs) v = run-IsSafe es (step e a) gs (step-IsSafe e a g v)

  -- After any history of the server: what one user's browsers and daemons do, openings with their
  -- greeting, prompts and all other messages of browsers, and whatever a daemon says of runs or of
  -- requests included, sends frames to that user's browsers and to daemons, and to no other browser. It
  -- holds where each browser's socket is used for the user whose cookie opened it, where the registry
  -- in which a runner looks for a device has each device once, under its id and for the user to whom
  -- its token was given, where the runner made for a new session is one of the session's user, on no
  -- device or on one of that user, and where at the start each pending request is of its socket's user
  -- and each session's run is on a device of its user.
  pub tenants_isolated :
      (es : List Event) (e : Event) (u : String) (a : Server Remote Ticket)
      → IsSafe owner tenant a
      → All IsGenuine es
      → IsGenuine e
      → IsBy u e
      → SendsTo owner u (run es a).hub (step e (run es a)).hub
  tenants_isolated es e u a v gs g b = (step-Serves e u (run es a) g b (run-IsSafe es a gs v)).sends
