-- ===== src/Outbound/Ack.antt =====
-- `validate_coordinator_ack` of src/core/coordinator_ack.cpp; an exception is `false`.
use neta_agent.Prelude.{
  ℕ, ◌≡◌, ◌≢◌, ◌⊎◌, ◌↔◌, Bool, true, false, ◌&&◌, ◌||◌, not, [], Text, bytes, ◌==◌, nat_eq, text_eq,
  text_beq_iff, is_empty, ℤ, pos, int_eq, int_beq_iff, if◌then◌else◌, arith,
}

pub record CoordinatorAck : Type 0 where
  pub protocol : Text
  pub schema_version : ℤ
  pub message_type : Text
  pub version : ℤ
  pub message_id : Text
  pub sequence : ℕ
  pub idempotency_key : Text
  pub payload_hash : Text
  pub status : Text
  pub received_at : Text

unfoldable pub validate_coordinator_ack : CoordinatorAck → Text → ℕ → Text → Text → Bool
validate_coordinator_ack ack message_id sequence idempotency_key payload_hash =
    if not (ack.protocol == bytes "neta-agent/1")
      || not (ack.schema_version == pos 1)
      || not (ack.message_type == bytes "Ack")
    then false
    else if not (ack.version == pos 1)
    then false
    else if not (ack.message_id == message_id)
    then false
    else if not (ack.sequence == sequence)
    then false
    else if not (ack.idempotency_key == idempotency_key)
    then false
    else if not (ack.payload_hash == payload_hash)
    then false
    else if not (ack.status == bytes "ACCEPTED") && not (ack.status == bytes "ALREADY_ACCEPTED")
    then false
    else not (is_empty ack.received_at)

-- The acknowledgement is of the supported form, and of this attempt.
pub record Acknowledges (ack : CoordinatorAck) (message_id : Text) (sequence : ℕ)
    (idempotency_key payload_hash : Text) : Type 0 where
  pub protocol : ack.protocol ≡ bytes "neta-agent/1"
  pub schema_version : ack.schema_version ≡ pos 1
  pub message_type : ack.message_type ≡ bytes "Ack"
  pub version : ack.version ≡ pos 1
  pub same_message : ack.message_id ≡ message_id
  pub same_sequence : ack.sequence ≡ sequence
  pub same_event : ack.idempotency_key ≡ idempotency_key
  pub same_payload : ack.payload_hash ≡ payload_hash
  pub accepted : (ack.status ≡ bytes "ACCEPTED") ⊎ (ack.status ≡ bytes "ALREADY_ACCEPTED")
  pub dated : ack.received_at ≢ []

-- An acknowledgement is valid for an attempt exactly when it has the supported protocol, schema,
-- type and version, names the message, the sequence, the event and the payload of the attempt,
-- accepts it now or did before, and says when it was received.
pub validate_iff :
    (ack : CoordinatorAck) (message_id : Text) (sequence : ℕ) (idempotency_key payload_hash : Text)
    → (validate_coordinator_ack ack message_id sequence idempotency_key payload_hash ≡ true)
      ↔ Acknowledges ack message_id sequence idempotency_key payload_hash
unfolding validate_coordinator_ack
validate_iff ack message_id sequence idempotency_key payload_hash =
    let protocol = text_beq_iff ack.protocol (bytes "neta-agent/1") in
    let kind = text_beq_iff ack.message_type (bytes "Ack") in
    let schema = int_beq_iff ack.schema_version (pos 1) in
    let version = int_beq_iff ack.version (pos 1) in
    let message = text_beq_iff ack.message_id message_id in
    let event = text_beq_iff ack.idempotency_key idempotency_key in
    let payload = text_beq_iff ack.payload_hash payload_hash in
    let now = text_beq_iff ack.status (bytes "ACCEPTED") in
    let earlier = text_beq_iff ack.status (bytes "ALREADY_ACCEPTED") in
    (
      λ h. record {
        protocol = protocol.0 (ground (arith, h));
        schema_version = schema.0 (ground (arith, h));
        message_type = kind.0 (ground (arith, h));
        version = version.0 (ground (arith, h));
        same_message = message.0 (ground (arith, h));
        same_sequence = ground (arith, h);
        same_event = event.0 (ground (arith, h));
        same_payload = payload.0 (ground (arith, h));
        accepted = ground (arith, h, now, earlier);
        dated = λ e. ground (arith, h, e);
      },
      λ a. ground (
        arith,
        protocol.1 a.protocol,
        schema.1 a.schema_version,
        kind.1 a.message_type,
        version.1 a.version,
        message.1 a.same_message,
        a.same_sequence,
        event.1 a.same_event,
        payload.1 a.same_payload,
        a.accepted,
        now,
        earlier,
        a.dated,
      ),
    )
