-- ===== src/Dispatch/Wording.antt =====
-- The texts that the dispatcher writes: message ids, times and envelopes.
use neta_agent.Prelude.{
  ℕ, zero, suc, ◌+◌, ◌/◌, ◌%◌, List, [], ◌∷◌, ◌++◌, Text, bytes, ◌==◌, nat_eq, ltb, take, drop,
  if◌then◌else◌,
}
use neta_agent.Prelude.Decimal.{to_string}
use neta_agent.Crypto.{hex, hex_digit}
use neta_agent.Outbound.Message.{OutboundMessage}

unfoldable pub set_at : ℕ → (ℕ → ℕ) → List ℕ → List ℕ
set_at n f [] = []
set_at zero f (b ∷ bs) = f b ∷ bs
set_at (suc n) f (b ∷ bs) = b ∷ set_at n f bs

-- The sixteen bytes that `RAND_bytes` gave.
unfoldable pub random_uuid : List ℕ → Text
unfolding set_at hex
random_uuid random =
    let versioned = set_at 6 (λ b. 64 + b % 16) random in
    let bytes = set_at 8 (λ b. 128 + b % 64) versioned in
    hex (take 4 bytes)
    ++ b'-' ∷ hex (take 2 (drop 4 bytes))
    ++ b'-' ∷ hex (take 2 (drop 6 bytes))
    ++ b'-' ∷ hex (take 2 (drop 8 bytes))
    ++ b'-' ∷ hex (drop 10 bytes)

-- `gmtime_r` and `std::put_time` with the format `%Y-%m-%dT%H:%M:%S`.
pub record Calendar : Type 0 where
  pub put_time : ℕ → Text

unfoldable pub iso8601 : Calendar → ℕ → Text
iso8601 calendar nanoseconds =
    let milliseconds = nanoseconds / 1000000 in
    let part = milliseconds % 1000 in
    calendar.put_time (milliseconds / 1000)
    ++ b'.' ∷ (48 + part / 100) ∷ (48 + part / 10 % 10) ∷ (48 + part % 10) ∷ b'Z' ∷ []

unfoldable pub escape : ℕ → Text
escape c =
    if c == b'\\'
    then b'\\' ∷ b'\\' ∷ []
    else if c == b'"'
    then b'\\' ∷ b'"' ∷ []
    else if c == 10
    then b'\\' ∷ b'n' ∷ []
    else if c == 13
    then b'\\' ∷ b'r' ∷ []
    else if c == 9
    then b'\\' ∷ b't' ∷ []
    else if ltb c 32
    then b'\\' ∷ b'u' ∷ b'0' ∷ b'0' ∷ hex_digit (c / 16) ∷ hex_digit (c % 16) ∷ []
    else c ∷ []

unfoldable pub json_escape : Text → Text
unfolding escape
json_escape [] = []
json_escape (c ∷ s) = escape c ++ json_escape s

pub record FleetIdentity : Type 0 where
  pub coordinator : Text
  pub fleet_id : Text
  pub agent_id : Text
  pub certificate_sha256 : Text

unfoldable pub envelope : Calendar → FleetIdentity → ℕ → OutboundMessage → Text
unfolding json_escape iso8601
envelope calendar identity now_ns message =
    bytes "{\"protocol\":\"neta-agent/1\",\"schema_version\":1,\"message_id\":\""
    ++ message.attempt_message_id
    ++ bytes "\",\"message_type\":\""
    ++ json_escape message.message_type
    ++ bytes "\",\"agent_id\":\""
    ++ json_escape identity.agent_id
    ++ bytes "\",\"created_at\":\""
    ++ iso8601 calendar now_ns
    ++ bytes "\",\"expires_at\":\""
    ++ iso8601 calendar message.attempt_expires_at_ns
    ++ bytes "\",\"sequence\":"
    ++ to_string message.attempt_sequence
    ++ bytes ",\"correlation_id\":null,\"idempotency_key\":\""
    ++ json_escape message.event_id
    ++ bytes "\",\"payload_hash\":\""
    ++ message.payload_hash
    ++ bytes "\",\"payload\":"
    ++ message.payload_json
    ++ bytes ",\"signature\":{\"algorithm\":\"UNSIGNED-NAP1-DRAFT\",\"key_id\":\""
    ++ json_escape identity.certificate_sha256
    ++ bytes "\",\"value\":\"transport-mtls-only\"}}"
