-- ===== src/Session/Saved.antt =====
-- server/sessions.ts: what a session has in memory, beside what it has written to the database.
use agent_web_mvp.Prelude.{◌≡◌, sym, ap, ◌∙◌, String, List, ◌++◌, Option, append_assoc}
use agent_web_mvp.Types.{ChatMessage}
use agent_web_mvp.Session.State.{Session}
use agent_web_mvp.Session.Growth.{inserted, stored, inserted-append, stored-append, Grows}

module _ {R K : Type 0} (h₀ : List ChatMessage) (t₀ : Option String) where
  -- The memory and the database agree, where the session was built from `h₀` and `t₀`.
  pub record IsSaved (s : Session R K) : Type 0 where
    pub messages : s.history ≡ h₀ ++ inserted s.effects
    pub token : s.resume_token ≡ stored t₀ s.effects

  pub Grows-IsSaved : (s t : Session R K) → Grows s t → IsSaved s → IsSaved t
  Grows-IsSaved s t g v = record {
    messages =
        g.history
        ∙ ap (λ a. a ++ inserted g.did) v.messages
        ∙ append_assoc h₀ (inserted s.effects) (inserted g.did)
        ∙ sym (ap (λ a. h₀ ++ a) (ap inserted g.effects ∙ inserted-append s.effects g.did));
    token =
        g.token
        ∙ ap (λ a. stored a g.did) v.token
        ∙ sym (ap (stored t₀) g.effects ∙ stored-append t₀ s.effects g.did);
  }
