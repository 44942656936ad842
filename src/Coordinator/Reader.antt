-- ===== src/Coordinator/Reader.antt =====
-- `parse_coordinator_ack` of src/core/coordinator_ack.cpp; an exception is `none`.
use neta_agent.Prelude.{
  ℕ, ◌%◌, ◌^◌, ◌-◌, ltb, ℤ, pos, negsuc, Bool, ◌||◌, Option, none, some, ◌>>=◌, [], ◌∷◌, ◌++◌, Text,
  bytes, ◌==◌, nat_eq, if◌then◌else◌,
}
use neta_agent.Prelude.Decimal.{from_chars, is_digit}
use neta_agent.Prelude.Search.{find_after, skip_space}
use neta_agent.Outbound.Ack.{CoordinatorAck}

abbrev pub quoted : Text → Text
quoted key = b'"' ∷ key ++ b'"' ∷ []

-- The text from the value of the key on.
unfoldable pub value_start : Text → Text → Option Text
unfolding find_after skip_space
value_start json key = do
  rest ← find_after (quoted key) json
  value ← find_after (bytes ":") rest
  some (skip_space value)

abbrev pub is_escapable : ℕ → Bool
is_escapable c = c == b'"' || c == b'\\' || c == b'/'

-- The characters up to the closing quote.
unfoldable pub read_string : Text → Option Text
read_string [] = none
read_string (c ∷ []) = if c == b'"' then some [] else none
read_string (c ∷ d ∷ s) =
    let plain = read_string (d ∷ s) >>= λ rest. some (c ∷ rest) in
    let escaped = read_string s >>= λ rest. some (d ∷ rest) in
    if c == b'"'
    then some []
    else if c == b'\\'
    then if is_escapable d then escaped else none
    else plain

unfoldable pub opened : Text → Option Text
unfolding read_string
opened [] = none
opened (c ∷ s) = if c == b'"' then read_string s else none

unfoldable pub string_value : Text → Text → Option Text
unfolding value_start opened
string_value json key = do value ← value_start json key; opened value

unfoldable pub digits_of : Text → Text
digits_of [] = []
digits_of (c ∷ s) = let rest = digits_of s in if is_digit c then c ∷ rest else []

-- `std::stoull` throws past 64 bits.
unfoldable pub unsigned_value : Text → Text → Option ℕ
unfolding value_start digits_of
unsigned_value json key = do value ← value_start json key; from_chars (digits_of value)

-- `static_cast<int>` keeps 32 bits, the highest of which is the sign.
unfoldable pub to_int : ℕ → ℤ
to_int n = let low = n % 2 ^ 32 in if ltb low (2 ^ 31) then pos low else negsuc (2 ^ 32 - 1 - low)

unfoldable pub parse_coordinator_ack : Text → Option CoordinatorAck
unfolding string_value unsigned_value to_int
parse_coordinator_ack json = do
  protocol ← string_value json (bytes "protocol")
  schema_version ← unsigned_value json (bytes "schemaVersion")
  message_type ← string_value json (bytes "messageType")
  version ← unsigned_value json (bytes "ackVersion")
  message_id ← string_value json (bytes "messageId")
  sequence ← unsigned_value json (bytes "sequence")
  idempotency_key ← string_value json (bytes "idempotencyKey")
  payload_hash ← string_value json (bytes "payloadHash")
  status ← string_value json (bytes "status")
  received_at ← string_value json (bytes "receivedAt")
  some (record {
    protocol = protocol;
    schema_version = to_int schema_version;
    message_type = message_type;
    version = to_int version;
    message_id = message_id;
    sequence = sequence;
    idempotency_key = idempotency_key;
    payload_hash = payload_hash;
    status = status;
    received_at = received_at;
  })
