-- ===== src/Session/Growth.antt =====
-- server/sessions.ts: how the history, the token and the status of a session grow with its effects, and
-- the small steps by which they do.
use agent_web_mvp.Prelude.{
  ◌≡◌, refl, sym, subst, ap, ◌∙◌, String, List, [], ◌∷◌, ◌++◌, Option, append_assoc, append-nil,
  is_some, Bool-cases, inl, inr, All, All-append,
}
use agent_web_mvp.Types.{SessionStatus, SessionMeta, Role, ChatMessage}
use agent_web_mvp.Types.Values.{Json}
use agent_web_mvp.Types.AuthDetect.{AuthHit}
use agent_web_mvp.Session.State.{
  Effect, insert_agent_message, message_added, meta_changed, update_resume_token, Session, Env,
  emit_auth_required, same_status, set_status, deny_all,
}
use agent_web_mvp.Session.Steps.{record_message}

-- The rows of agent_messages that the effects insert, in order.
abbrev pub inserted : {K : Type 0} → List (Effect K) → List ChatMessage
inserted [] = []
inserted (insert_agent_message m ∷ es) = m ∷ inserted es
inserted (_ ∷ es) = inserted es

-- The resume_token column after the effects, from what it was before.
abbrev pub stored : {K : Type 0} → Option String → List (Effect K) → Option String
stored t [] = t
stored t (update_resume_token u id ∷ es) = stored u es
stored t (_ ∷ es) = stored t es

module _ {K : Type 0} where
  pub inserted-append : (es fs : List (Effect K)) → inserted (es ++ fs) ≡ inserted es ++ inserted fs
  inserted-append [] fs = refl
  inserted-append (insert_agent_message m ∷ es) fs = ap (◌∷◌ m) (inserted-append es fs)
  inserted-append (_ ∷ es) fs = inserted-append es fs

  pub stored-append :
      (t : Option String) (es fs : List (Effect K)) → stored t (es ++ fs) ≡ stored (stored t es) fs
  stored-append t [] fs = refl
  stored-append t (update_resume_token u id ∷ es) fs = stored-append u es fs
  stored-append t (_ ∷ es) fs = stored-append t es fs

  pub inserted-deny_all : (id : String) (p : List (String × K)) → inserted (deny_all id p) ≡ []
  unfolding deny_all
  inserted-deny_all id [] = refl
  inserted-deny_all id ((r, k) ∷ p) = inserted-deny_all id p

  pub stored-deny_all :
      (t : Option String) (id : String) (p : List (String × K)) → stored t (deny_all id p) ≡ t
  unfolding deny_all
  stored-deny_all t id [] = refl
  stored-deny_all t id ((r, k) ∷ p) = stored-deny_all t id p

-- The messages and the records that the callbacks are called with, in order.
abbrev pub added : {K : Type 0} → List (Effect K) → List ChatMessage
added [] = []
added (message_added m ∷ es) = m ∷ added es
added (_ ∷ es) = added es

abbrev pub changes : {K : Type 0} → List (Effect K) → List SessionMeta
changes [] = []
changes (meta_changed m ∷ es) = m ∷ changes es
changes (_ ∷ es) = changes es

abbrev pub latest : SessionStatus → List SessionMeta → SessionStatus
latest st [] = st
latest st (m ∷ ms) = latest m.status ms

latest-append :
    (st : SessionStatus) (ms ns : List SessionMeta)
    → latest st (ms ++ ns) ≡ latest (latest st ms) ns
latest-append st [] ns = refl
latest-append st (m ∷ ms) ns = latest-append m.status ms ns

module _ {K : Type 0} where
  pub added-append : (es fs : List (Effect K)) → added (es ++ fs) ≡ added es ++ added fs
  added-append [] fs = refl
  added-append (message_added m ∷ es) fs = ap (◌∷◌ m) (added-append es fs)
  added-append (_ ∷ es) fs = added-append es fs

  pub changes-append : (es fs : List (Effect K)) → changes (es ++ fs) ≡ changes es ++ changes fs
  changes-append [] fs = refl
  changes-append (meta_changed m ∷ es) fs = ap (◌∷◌ m) (changes-append es fs)
  changes-append (_ ∷ es) fs = changes-append es fs

  pub added-deny_all : (id : String) (p : List (String × K)) → added (deny_all id p) ≡ []
  unfolding deny_all
  added-deny_all id [] = refl
  added-deny_all id ((r, k) ∷ p) = added-deny_all id p

  pub changes-deny_all : (id : String) (p : List (String × K)) → changes (deny_all id p) ≡ []
  unfolding deny_all
  changes-deny_all id [] = refl
  changes-deny_all id ((r, k) ∷ p) = changes-deny_all id p

module _ {R K : Type 0} where
  -- `t` is `s` after the effects `did`: what they insert and announce is what the history has gained, the
  -- token is what they have written, and the status is the one that was announced last.
  pub record Grows (s t : Session R K) : Type 0 where
    pub did : List (Effect K)
    pub same_id : t.id ≡ s.id
    pub history : t.history ≡ s.history ++ inserted did
    pub effects : t.effects ≡ s.effects ++ did
    pub token : t.resume_token ≡ stored s.resume_token did
    pub told : added did ≡ inserted did
    pub status : t.status ≡ latest s.status (changes did)
    pub own : All (λ m. m.session_id ≡ s.id) (inserted did)
    pub own_metas : All (λ m. m.id ≡ s.id) (changes did)

  pub none-Grows : (s : Session R K) → Grows s s
  none-Grows s = record {
    did = [];
    same_id = refl;
    history = sym (append-nil s.history);
    effects = sym (append-nil s.effects);
    token = refl;
    told = refl;
    status = refl;
    own = tt;
    own_metas = tt;
  }

  pub Grows-trans : (r s t : Session R K) → Grows r s → Grows s t → Grows r t
  Grows-trans r s t v w = record {
    did = v.did ++ w.did;
    same_id = w.same_id ∙ v.same_id;
    history =
        w.history
        ∙ ap (λ a. a ++ inserted w.did) v.history
        ∙ append_assoc r.history (inserted v.did) (inserted w.did)
        ∙ ap (λ a. r.history ++ a) (sym (inserted-append v.did w.did));
    effects = w.effects ∙ ap (λ a. a ++ w.did) v.effects ∙ append_assoc r.effects v.did w.did;
    token =
        w.token ∙ ap (λ a. stored a w.did) v.token ∙ sym (stored-append r.resume_token v.did w.did);
    told =
        added-append v.did w.did
        ∙ ap (λ a. a ++ added w.did) v.told
        ∙ ap (λ a. inserted v.did ++ a) w.told
        ∙ sym (inserted-append v.did w.did);
    status =
        w.status
        ∙ ap (λ a. latest a (changes w.did)) v.status
        ∙ sym (latest-append r.status (changes v.did) (changes w.did))
        ∙ ap (latest r.status) (sym (changes-append v.did w.did));
    own = subst (All (λ m. m.session_id ≡ r.id)) (sym (inserted-append v.did w.did)) (
        All-append (λ m. m.session_id ≡ r.id) (inserted v.did) (inserted w.did) v.own
          (subst (λ i. All (λ m. m.session_id ≡ i) (inserted w.did)) v.same_id w.own));
    own_metas = subst (All (λ m. m.id ≡ r.id)) (sym (changes-append v.did w.did)) (
        All-append (λ m. m.id ≡ r.id) (changes v.did) (changes w.did) v.own_metas
          (subst (λ i. All (λ m. m.id ≡ i) (changes w.did)) v.same_id w.own_metas));
  }

module _ {R K : Type 0} (s₀ : Session R K) where
  -- A step that inserts nothing and announces nothing.
  pub quiet-Grows :
      (s t : Session R K) (es : List (Effect K))
      → Grows s₀ s
      → t.id ≡ s.id
      → t.history ≡ s.history
      → t.effects ≡ s.effects ++ es
      → t.resume_token ≡ stored s.resume_token es
      → t.status ≡ s.status
      → inserted es ≡ []
      → added es ≡ []
      → changes es ≡ []
      → Grows s₀ t
  quiet-Grows s t es v i h e r st a b c = Grows-trans s₀ s t v (record {
    did = es;
    same_id = i;
    history = h ∙ sym (append-nil s.history) ∙ ap (λ l. s.history ++ l) (sym a);
    effects = e;
    token = r;
    told = b ∙ sym a;
    status = st ∙ ap (latest s.status) (sym c);
    own = subst (All (λ m. m.session_id ≡ s.id)) (sym a) tt;
    own_metas = subst (All (λ m. m.id ≡ s.id)) (sym c) tt;
  })

  -- A step that has no effects.
  pub same-Grows :
      (s t : Session R K)
      → Grows s₀ s
      → t.id ≡ s.id
      → t.history ≡ s.history
      → t.effects ≡ s.effects
      → t.resume_token ≡ s.resume_token
      → t.status ≡ s.status
      → Grows s₀ t
  same-Grows s t v i h e r st =
      quiet-Grows s t [] v i h (e ∙ sym (append-nil s.effects)) r st refl refl refl

module _ {R K : Type 0} (s₀ s : Session R K) (v : Grows s₀ s) where
  pub say-Grows :
      (env : Env R) (role : Role) (text : String) (m : Option Json)
      → Grows s₀ (record_message env role text m s)
  unfolding record_message
  say-Grows env role text m = Grows-trans s₀ s _ v (record {
    did = _;
    same_id = refl;
    history = refl;
    effects = refl;
    token = refl;
    told = refl;
    status = refl;
    own = (refl, tt);
    own_metas = tt;
  })

  pub set_status-Grows : (st : SessionStatus) → Grows s₀ (set_status st s)
  unfolding set_status
  set_status-Grows st = elim (Bool-cases (same_status s.status st)) [
    | inl c ↦ rw c v
    | inr c ↦ rw c (
        Grows-trans s₀ s _ v (record {
          did = _;
          same_id = refl;
          history = sym (append-nil s.history);
          effects = refl;
          token = refl;
          told = refl;
          status = refl;
          own = tt;
          own_metas = (refl, tt);
        }))
  ]

  pub emit_auth_required-Grows : (hit : AuthHit) → Grows s₀ (emit_auth_required hit s)
  unfolding emit_auth_required
  emit_auth_required-Grows hit = elim (Bool-cases (is_some s.resume_token)) [
    | inl c ↦
        rw c
          (quiet-Grows s₀ s _ _ v refl refl (append_assoc s.effects _ _) refl refl refl refl refl)
    | inr c ↦ rw c (quiet-Grows s₀ s _ _ v refl refl refl refl refl refl refl refl)
  ]
