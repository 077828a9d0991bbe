-- ===== src/Hub/Sweeps.antt =====
-- server/index.ts: the timer that answers the directory requests which no daemon has answered, against
-- its specification.
use agent_web_mvp.Prelude.{
  ℕ, ◌≡◌, refl, sym, ap, ◌∙◌, String, Bool, true, false, ◌&&◌, List, [], ◌∷◌, ◌++◌, Option, none,
  some, arith, append_assoc, append-nil, if◌then◌else◌, ◌==◌, eq_iff, Bool-cases, inl, inr, any,
  ltb,
}
use agent_web_mvp.Prelude.JsMap.{JsMap, get, remove, get-remove}
use agent_web_mvp.Prelude.JsMap.Distinct.{IsMap}
use agent_web_mvp.Wire.{Frame, to_browser, send}
use agent_web_mvp.Hub.{PendingDirListing, Hub, tell}
use agent_web_mvp.Hub.Listings.{failed, sweep_entries, sweep_dir_listings}

abbrev pub timeout_message : String
timeout_message = "Daemon did not respond. Upgrade vvibe (`vvibe upgrade`) and retry."

-- The specification: what is left of an entry, and the errors that go out, in the order of the map.
abbrev pub unexpired : ℕ → Option PendingDirListing → Option PendingDirListing
unexpired now none = none
unexpired now (some p) = if ltb p.expires_at now then none else some p

abbrev pub timeouts : ℕ → (ℕ → Bool) → JsMap PendingDirListing → List (ℕ × Frame)
timeouts now is_open [] = []
timeouts now is_open ((id, p) ∷ es) =
    if ltb p.expires_at now && is_open p.ws
    then (p.ws, to_browser (failed id p.path timeout_message)) ∷ timeouts now is_open es
    else timeouts now is_open es

abbrev is_expired : ℕ → String → JsMap PendingDirListing → Bool
is_expired now j es = any (λ e. e.0 == j && ltb e.1.expires_at now) es

abbrev time_out : String → PendingDirListing → Hub → Hub
time_out id p hub =
    tell p.ws (failed id p.path timeout_message)
      (record hub { pending_dir_listings = remove id hub.pending_dir_listings })

get-time_out :
    (id j : String) (p : PendingDirListing) (hub : Hub)
    → get j (time_out id p hub).pending_dir_listings
      ≡ (if id == j then none else get j hub.pending_dir_listings)
unfolding tell
get-time_out id j p hub = get-remove id j hub.pending_dir_listings

get-sweep_entries :
    (now : ℕ) (j : String) (es : JsMap PendingDirListing) (hub : Hub)
    → get j (sweep_entries now es hub).pending_dir_listings
      ≡ (if is_expired now j es then none else get j hub.pending_dir_listings)
unfolding sweep_entries
get-sweep_entries now j [] hub = refl
get-sweep_entries now j ((id, p) ∷ es) hub = elim (Bool-cases (ltb p.expires_at now)) [
  | inl e ↦
      rw e (ground (arith, get-sweep_entries now j es (time_out id p hub), get-time_out id j p hub))
  | inr e ↦ rw e (ground (arith, get-sweep_entries now j es hub))
]

not_expired :
    (now : ℕ) (j : String) (es : JsMap PendingDirListing)
    → get j es ≡ none
    → is_expired now j es ≡ false
unfolding get
not_expired now j [] h = refl
not_expired now j ((id, p) ∷ es) h = ground (arith, not_expired now j es)

expired-get :
    (now : ℕ) (j : String) (es : JsMap PendingDirListing)
    → IsMap es
    → (if is_expired now j es then none else get j es) ≡ unexpired now (get j es)
unfolding get
expired-get now j [] m = refl
expired-get now j ((id, p) ∷ es) (n, m) =
    ground
      (arith, expired-get now j es m, eq_iff id j, not_expired now id es n, not_expired now j es)

frames-time_out :
    (id : String) (p : PendingDirListing) (hub : Hub)
    → ((time_out id p hub).registry.net.frames ≡ (
        if hub.registry.net.is_open p.ws
        then hub.registry.net.frames ++ (p.ws, to_browser (failed id p.path timeout_message)) ∷ []
        else hub.registry.net.frames))
      × ((time_out id p hub).registry.net.is_open ≡ hub.registry.net.is_open)
unfolding tell send
frames-time_out id p hub = elim (Bool-cases (hub.registry.net.is_open p.ws)) [
  | inl e ↦ rw e (refl, refl)
  | inr e ↦ rw e (refl, refl)
]

expired-frames :
    (now : ℕ) (is_open : ℕ → Bool) (id : String) (p : PendingDirListing)
    (es : JsMap PendingDirListing) (hub : Hub)
    → hub.registry.net.is_open ≡ is_open
    → ltb p.expires_at now ≡ true
    → (time_out id p hub).registry.net.frames ++ timeouts now is_open es
      ≡ hub.registry.net.frames ++ timeouts now is_open ((id, p) ∷ es)
expired-frames now is_open id p es hub o e =
    let (f, _) = frames-time_out id p hub in
    elim (Bool-cases (is_open p.ws)) [
      | inl c ↦
          rw (e, c)
            (ap (λ x. x ++ timeouts now is_open es) (f ∙ rw (o, c) refl)
              ∙ append_assoc hub.registry.net.frames (_ ∷ []) (timeouts now is_open es))
      | inr c ↦ rw (e, c) (ap (λ x. x ++ timeouts now is_open es) (f ∙ rw (o, c) refl))
    ]

kept-frames :
    (now : ℕ) (is_open : ℕ → Bool) (id : String) (p : PendingDirListing)
    (es : JsMap PendingDirListing) (hub : Hub)
    → ltb p.expires_at now ≡ false
    → hub.registry.net.frames ++ timeouts now is_open es
      ≡ hub.registry.net.frames ++ timeouts now is_open ((id, p) ∷ es)
kept-frames now is_open id p es hub e = rw e refl

frames-sweep_entries :
    (now : ℕ) (is_open : ℕ → Bool) (es : JsMap PendingDirListing) (hub : Hub)
    → hub.registry.net.is_open ≡ is_open
    → (sweep_entries now es hub).registry.net.frames
      ≡ hub.registry.net.frames ++ timeouts now is_open es
unfolding sweep_entries
frames-sweep_entries now is_open [] hub o = sym (append-nil _)
frames-sweep_entries now is_open ((id, p) ∷ es) hub o = elim (Bool-cases (ltb p.expires_at now)) [
  | inl e ↦
      let (_, k) = frames-time_out id p hub in
      ap (λ b. (sweep_entries now es (if b then time_out id p hub else hub)).registry.net.frames) e
      ∙ frames-sweep_entries now is_open es (time_out id p hub) (k ∙ o)
      ∙ expired-frames now is_open id p es hub o e
  | inr e ↦
      ap (λ b. (sweep_entries now es (if b then time_out id p hub else hub)).registry.net.frames) e
      ∙ frames-sweep_entries now is_open es hub o
      ∙ kept-frames now is_open id p es hub e
]

-- The timer implements its specification: behind it exactly the requests that have not run out are
-- pending, each as it was; and each request that has run out has had one error on the socket that
-- asked, if that is open, in the order of the requests. Nothing else is sent. (The keys of the map are
-- distinct, as those of a JavaScript map are.)
pub sweep_dir_listings_lem :
    (now : ℕ) (j : String) (hub : Hub)
    → IsMap hub.pending_dir_listings
    → let hub' = sweep_dir_listings now hub in
      (get j hub'.pending_dir_listings ≡ unexpired now (get j hub.pending_dir_listings))
      × (hub'.registry.net.frames
          ≡ hub.registry.net.frames
            ++ timeouts now hub.registry.net.is_open hub.pending_dir_listings)
unfolding sweep_dir_listings
sweep_dir_listings_lem now j hub m = (
  get-sweep_entries now j hub.pending_dir_listings hub
      ∙ expired-get now j hub.pending_dir_listings m,
  frames-sweep_entries now hub.registry.net.is_open hub.pending_dir_listings hub refl,
)
