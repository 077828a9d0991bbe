-- ===== src/Pairing/Tests.antt =====
-- server/pairing.ts: a daemon is paired, and what is refused. A digest is the codes of the text here.
use agent_web_mvp.Prelude.{◌≤◌, ◌≡◌, refl, List, [], ◌∷◌, none, some, arith, ◌<>◌}
use agent_web_mvp.Prelude.Tally.{unary, counted, counted-unary, points}
use agent_web_mvp.Db.{
  Db, pending, claimed, PairingCodeRow, find_pairing_code, find_device_token_by_id, first,
}
use agent_web_mvp.Pairing.{
  Crypto, TokenDraw, Request, init, poll, approve, handed_out, ok, status_is, pair_init,
  pair_approve, pair_status, serve_all, check_secret, verify_device_token,
}
use agent_web_mvp.Pairing.Token.{split_dot}
use agent_web_mvp.Pairing.Secret.{IsTight, serve_all-IsTight}
use agent_web_mvp.Pairing.Once.{hand_outs, handed_out_once}
use agent_web_mvp.Pairing.Stages.{token_row}
use agent_web_mvp.Pairing.Flow.{pairing_gives_token}
use agent_web_mvp.Pairing.Refusals.{IsTokenOf, verify_sound}

abbrev crypto : Crypto
crypto = record { sha256 = points; hex = unary; from_hex = counted 0 }

abbrev empty : Db
empty = record { pairing_codes = []; device_tokens = [] }

abbrev draw : TokenDraw
draw = record { id = "0a"; secret = "ff" }

abbrev requests : List Request
requests =
    init "ABCD" (some "box") 1000
    ∷ poll "ABCD" 2000
    ∷ approve (some "u1") "ABCD" draw 3000
    ∷ poll "ABCD" 4000
    ∷ poll "ABCD" 6000
    ∷ []

serve_all-IsTight_example : IsTight (serve_all crypto requests empty)
serve_all-IsTight_example = serve_all-IsTight crypto requests empty tt

handed_out_once_example : hand_outs crypto "ABCD" requests empty ≤ 1
handed_out_once_example = handed_out_once crypto "ABCD" requests empty

pairing_gives_token_example :
    let stored = (pair_init "ABCD" (some "box") 1000 empty).0 in
    let approval = pair_approve crypto (some "u1") "ABCD" draw 3000 stored in
    let poll₁ = pair_status "ABCD" 4000 approval.0 in
    let poll₂ = pair_status "ABCD" 6000 poll₁.0 in
    (approval.1 ≡ ok)
    × (poll₁.1 ≡ handed_out (some "0a.ff") (some "box"))
    × (poll₂.1 ≡ status_is claimed)
    × (verify_device_token crypto "0a.ff" poll₁.0
        ≡ some (token_row crypto "u1" draw (some "box") 3000))
unfolding ◌<>◌ find_pairing_code find_device_token_by_id first
pairing_gives_token_example =
    pairing_gives_token crypto "u1" "ABCD" (some "box") draw 1000 3000 4000 6000 empty counted-unary
      ((λ e. omega (arith, e)), ((λ e. omega (arith, e)), tt)) refl refl refl refl refl
      (omega arith) (omega arith)

abbrev stored_token : Db
stored_token = record empty { device_tokens = token_row crypto "u1" draw (some "box") 3000 ∷ [] }

verify_sound_example :
    IsTokenOf crypto stored_token (token_row crypto "u1" draw (some "box") 3000) (split_dot "0a.ff")
unfolding verify_device_token check_secret split_dot find_device_token_by_id first
verify_sound_example =
    verify_sound crypto "0a.ff" stored_token (token_row crypto "u1" draw (some "box") 3000) refl

abbrev waiting : PairingCodeRow
waiting = record {
  code = "ABCD";
  status = pending;
  user_id = none;
  device_token = none;
  device_name = none;
  created_at = 1000;
  expires_at = 601000;
}

abbrev with_waiting : Db
with_waiting = record empty { pairing_codes = waiting ∷ [] }
