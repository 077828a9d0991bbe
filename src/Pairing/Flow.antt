-- ===== src/Pairing/Flow.antt =====
-- server/pairing.ts: a pairing from the first request to the check of the token.
use agent_web_mvp.Prelude.{
  ℕ, ◌+◌, ◌≤◌, ◌≡◌, refl, ◌∙◌, String, false, List, Option, none, some, ◌==◌,
}
use agent_web_mvp.Db.{claimed, Db, find_pairing_code, find_device_token_by_id}
use agent_web_mvp.Pairing.{
  Crypto, TokenDraw, token_of, pair_ttl_ms, status_is, handed_out, ok, pair_init, pair_status,
  pair_approve, verify_device_token,
}
use agent_web_mvp.Pairing.Token.{NoDot}
use agent_web_mvp.Pairing.Stages.{
  after_init, after_approve, find-tokens, after_poll, after_claimed, after_check, new_row,
  approved_row, token_row,
}

-- A code that pairInit stores, that a signed-in user approves in time and that the daemon polls in
-- time: the approval answers with success, the first poll hands out the token and the name that the
-- daemon gave, a poll after it says `claimed` at any time, and the token is then accepted as the
-- device of that user. It holds for a code that is not in the table and not empty, and for a random
-- id that no device has; id and secret are not empty and the id has no dot. Of the hex encoding it
-- takes that decoding undoes it.
pub pairing_gives_token :
    (crypto : Crypto) (user code : String) (name : Option String) (d : TokenDraw) (t₀ t₁ t₂ t₃ : ℕ)
    (db : Db)
    → ((b : List ℕ) → crypto.from_hex (crypto.hex b) ≡ b)
    → NoDot d.id
    → (d.id == "") ≡ false
    → (d.secret == "") ≡ false
    → (code == "") ≡ false
    → find_pairing_code code db ≡ none
    → find_device_token_by_id d.id db ≡ none
    → t₁ ≤ t₀ + pair_ttl_ms
    → t₂ ≤ t₀ + pair_ttl_ms
    → let stored = (pair_init code name t₀ db).0 in
      let approval = pair_approve crypto (some user) code d t₁ stored in
      let poll₁ = pair_status code t₂ approval.0 in
      let poll₂ = pair_status code t₃ poll₁.0 in
      (approval.1 ≡ ok)
      × (poll₁.1 ≡ handed_out (some (token_of d)) name)
      × (poll₂.1 ≡ status_is claimed)
      × (verify_device_token crypto (token_of d) poll₁.0 ≡ some (token_row crypto user d name t₁))
pairing_gives_token crypto user code name d t₀ t₁ t₂ t₃ db law dot i s c absent fresh h₁ h₂ =
    let (stored, kept) = after_init code name t₀ db absent in
    let (agreed, is_approved_now, has_token) =
      after_approve crypto user code d t₁ (pair_init code name t₀ db).0 (new_row code name t₀) c
        stored refl h₁ (find-tokens d.id _ db kept ∙ fresh) in
    let (handed, is_claimed_now, kept₂) =
      after_poll code t₂ _ (approved_row user (token_of d) (new_row code name t₀)) c is_approved_now
        refl h₂ in
    (
      agreed,
      handed,
      after_claimed code t₃ _ (approved_row user (token_of d) (new_row code name t₀)) c
          is_claimed_now,
      after_check crypto user d name t₁ _ law dot i s (find-tokens d.id _ _ kept₂ ∙ has_token),
    )
