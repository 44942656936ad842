-- ===== src/Coordinator/Answer.antt =====
-- An acknowledgement that the coordinator writes is read as the one it wrote.
use neta_agent.Prelude.{
  ℕ, ◌<◌, ◌^◌, ◌≡◌, inl, inr, refl, Bool, true, false, ◌&&◌, not, some, List, [], ◌∷◌, Text, bytes,
  ◌==◌, text_beq_iff, nat_eq, text_eq, arith, Bool-cases, any, All, subst, sym, ◌∙◌, ◌%◌, pos,
}
use neta_agent.Outbound.Ack.{CoordinatorAck}
use neta_agent.Coordinator.Reader.{string_value, unsigned_value, to_int, parse_coordinator_ack}
use neta_agent.Coordinator.Quoted.{Value, str, num, write_object, is_key, is_plain, is_apart, get}
use neta_agent.Coordinator.Members.{string_value-object, unsigned_value-object}

abbrev pub ack_keys : List Text
ack_keys =
    bytes "protocol"
    ∷ bytes "schemaVersion"
    ∷ bytes "messageType"
    ∷ bytes "ackVersion"
    ∷ bytes "messageId"
    ∷ bytes "sequence"
    ∷ bytes "idempotencyKey"
    ∷ bytes "payloadHash"
    ∷ bytes "status"
    ∷ bytes "receivedAt"
    ∷ []

-- The key is a name, and a text under it needs no escape and is not one of the ten keys.
abbrev pub is_regular : Text × Value → Bool
is_regular (k, str s) = is_key k && is_plain s && not (any (λ key. key == s) ack_keys)
is_regular (k, num n) = is_key k

-- The object has the members of the acknowledgement, among others and in any order.
pub record Tells (fs : List (Text × Value)) (ack : CoordinatorAck) (schema version : ℕ)
    : Type 0 where
  pub protocol : get (bytes "protocol") fs ≡ some (str ack.protocol)
  pub schema_version : get (bytes "schemaVersion") fs ≡ some (num schema)
  pub same_schema : ack.schema_version ≡ pos schema
  pub message_type : get (bytes "messageType") fs ≡ some (str ack.message_type)
  pub ack_version : get (bytes "ackVersion") fs ≡ some (num version)
  pub same_version : ack.version ≡ pos version
  pub message_id : get (bytes "messageId") fs ≡ some (str ack.message_id)
  pub sequence : get (bytes "sequence") fs ≡ some (num ack.sequence)
  pub idempotency_key : get (bytes "idempotencyKey") fs ≡ some (str ack.idempotency_key)
  pub payload_hash : get (bytes "payloadHash") fs ≡ some (str ack.payload_hash)
  pub status : get (bytes "status") fs ≡ some (str ack.status)
  pub received_at : get (bytes "receivedAt") fs ≡ some (str ack.received_at)

both-and : (a b : Bool) → (a && not b) ≡ true → (a ≡ true) × (b ≡ false)
both-and a b h = ground arith

and-both : (a b : Bool) → a ≡ true → b ≡ false → (a && not b) ≡ true
and-both a b h k = ground arith

regular-apart :
    (key : Text) (f : Text × Value)
    → any (λ k. k == key) ack_keys ≡ true
    → is_regular f ≡ true
    → is_apart key f ≡ true
regular-apart key (k, num n) h r = r
regular-apart key (k, str s) h r =
    let (good, unlisted) = both-and (is_key k && is_plain s) (any (λ x. x == s) ack_keys) r in
    elim (Bool-cases (key == s)) [
      | inl same ↦
          let listed =
            subst (λ x. any (λ k. k == x) ack_keys ≡ true) ((text_beq_iff key s).0 same) h in
          absurd (cc (listed, unlisted))
      | inr other ↦ and-both (is_key k && is_plain s) (key == s) good other
    ]

regular-All :
    (key : Text) (fs : List (Text × Value))
    → any (λ k. k == key) ack_keys ≡ true
    → All (λ f. is_regular f ≡ true) fs
    → All (λ f. is_apart key f ≡ true) fs
regular-All key [] h r = tt
regular-All key (f ∷ fs) h r = (regular-apart key f h r.0, regular-All key fs h r.1)

get-plain :
    (key s : Text) (fs : List (Text × Value))
    → All (λ f. is_regular f ≡ true) fs
    → get key fs ≡ some (str s)
    → is_plain s ≡ true
get-plain key s [] r h = cc
get-plain key s ((k, str t) ∷ fs) r h = ground (arith, h, r.0, get-plain key s fs r.1)
get-plain key s ((k, num n) ∷ fs) r h = ground (arith, h, r.0, get-plain key s fs r.1)

module _ (fs : List (Text × Value)) (regular : All (λ f. is_regular f ≡ true) fs) where
  text_of :
      (key s : Text)
      → any (λ k. k == key) ack_keys ≡ true
      → is_key key ≡ true
      → get key fs ≡ some (str s)
      → string_value (write_object fs) key ≡ some s
  text_of key s listed named h =
      string_value-object key s fs named (regular-All key fs listed regular)
        (get-plain key s fs regular h) h

  number_of :
      (key : Text) (n : ℕ)
      → any (λ k. k == key) ack_keys ≡ true
      → is_key key ≡ true
      → n < 2 ^ 64
      → get key fs ≡ some (num n)
      → unsigned_value (write_object fs) key ≡ some n
  number_of key n listed named bound h =
      unsigned_value-object key n fs named (regular-All key fs listed regular) bound h

to_int-pos : (n : ℕ) → n < 2 ^ 31 → to_int n ≡ pos n
unfolding to_int
to_int-pos n h = let same : n % 2 ^ 32 ≡ n = omega (arith, h) in ground (arith, same, h)

-- An answer that is a JSON object without spaces, with the ten members of an acknowledgement among
-- its members, in any order, is read as this acknowledgement, if its keys are names, its texts need
-- no escape and are not one of the ten keys, its versions are below 2 ^ 31 and its sequence below
-- 2 ^ 64.
pub parse_coordinator_ack-write_object :
    (fs : List (Text × Value)) (ack : CoordinatorAck) (schema version : ℕ)
    → All (λ f. is_regular f ≡ true) fs
    → Tells fs ack schema version
    → schema < 2 ^ 31
    → version < 2 ^ 31
    → ack.sequence < 2 ^ 64
    → parse_coordinator_ack (write_object fs) ≡ some ack
unfolding parse_coordinator_ack
parse_coordinator_ack-write_object fs ack schema version r t small_schema small_version sequence =
    ground (
      arith,
      text_of fs r (bytes "protocol") ack.protocol refl refl t.protocol,
      number_of fs r (bytes "schemaVersion") schema refl refl (omega (arith, small_schema))
          t.schema_version,
      t.same_schema ∙ sym (to_int-pos schema small_schema),
      t.same_version ∙ sym (to_int-pos version small_version),
      text_of fs r (bytes "messageType") ack.message_type refl refl t.message_type,
      number_of fs r (bytes "ackVersion") version refl refl (omega (arith, small_version))
          t.ack_version,
      text_of fs r (bytes "messageId") ack.message_id refl refl t.message_id,
      number_of fs r (bytes "sequence") ack.sequence refl refl sequence t.sequence,
      text_of fs r (bytes "idempotencyKey") ack.idempotency_key refl refl t.idempotency_key,
      text_of fs r (bytes "payloadHash") ack.payload_hash refl refl t.payload_hash,
      text_of fs r (bytes "status") ack.status refl refl t.status,
      text_of fs r (bytes "receivedAt") ack.received_at refl refl t.received_at,
    )
