-- ===== src/Coordinator/Members.antt =====
-- The value of a key is read wherever the key stands in the answer.
use neta_agent.Prelude.{
  ℕ, ◌<◌, ◌^◌, ◌≡◌, inl, inr, refl, Bool, true, false, ◌||◌, some, List, [], ◌∷◌, ◌++◌, Text, bytes,
  ◌==◌, nat_eq, text_eq, arith, if◌then◌else◌, Bool-cases, All,
}
use neta_agent.Prelude.Decimal.{to_string, all_digits, all_digits-to_string, from_chars-to_string}
use neta_agent.Prelude.Search.{skip_space, find_after, after_prefix}
use neta_agent.Coordinator.Reader.{
  quoted, value_start, read_string, opened, string_value, digits_of, unsigned_value,
}
use neta_agent.Coordinator.Quoted.{
  Value, str, num, write_quoted, write_value, write_member, write_tail, write_object, is_key,
  is_plain, is_apart, get, quoteless, find-passes, find-quoted, digits-quoteless, plain-quoteless,
  name-quoteless,
}

-- A comma or a closing brace.
abbrev is_end : ℕ → Bool
is_end d = d == b',' || d == b'}'

find-one :
    (key t : Text) (d : ℕ)
    → (d == b'"') ≡ false
    → find_after (quoted key) (d ∷ t) ≡ find_after (quoted key) t
unfolding quoteless
find-one key t d n = find-passes key (d ∷ []) t (ground (arith, n))

find-member :
    (key t : Text) (d : ℕ) (f : Text × Value)
    → is_key key ≡ true
    → is_apart key f ≡ true
    → is_end d ≡ true
    → find_after (quoted key) (write_member f (d ∷ t))
      ≡ (if key == f.0 then some (b':' ∷ write_value f.1 (d ∷ t)) else find_after (quoted key) t)
find-member key t d (k, str s) n a e = ground (
  arith,
  find-quoted key k (write_quoted s (d ∷ t)) b':' n (name-quoteless k (ground (arith, a))),
  find-quoted key s t d n (plain-quoteless s (ground (arith, a))),
)
find-member key t d (k, num m) n a e = ground (
  arith,
  find-quoted key k (to_string m ++ d ∷ t) b':' n (name-quoteless k (ground (arith, a))),
  find-passes key (to_string m) (d ∷ t) (digits-quoteless _ (all_digits-to_string m)),
  find-one key t d,
)

-- What the reader finds under the key.
abbrev Found : Text → Value → Text → Type 0
Found key v json =
    (d : ℕ) × (t : Text) × (find_after (quoted key) json ≡ some (b':' ∷ write_value v (d ∷ t)))
    × (is_end d ≡ true)

-- The first character, and the others.
ends :
    (fs : List (Text × Value)) → (d : ℕ) × (t : Text) × (write_tail fs ≡ d ∷ t) × (is_end d ≡ true)
ends [] = (b'}', [], refl, refl)
ends (f ∷ fs) = (b',', _, refl, refl)

tail-Found :
    (key : Text) (v : Value) (fs : List (Text × Value))
    → is_key key ≡ true
    → All (λ f. is_apart key f ≡ true) fs
    → get key fs ≡ some v
    → Found key v (write_tail fs)
tail-Found key v [] n a h = cc
tail-Found key v ((k, w) ∷ fs) n a h =
    let (d, t, same, last) = ends fs in
    let here = find-member key t d (k, w) n a.0 last in
    let comma = find-one key (write_member (k, w) (d ∷ t)) b',' refl in
    elim (Bool-cases (key == k)) [
      | inl hit ↦ (d, t, ground (arith, same, comma, here, hit, h), last)
      | inr miss ↦
          let (e, u, found, close) = tail-Found key v fs n a.1 (ground (arith, miss, h)) in
          let inner = find-one key t d (ground (arith, last)) in
          (e, u, ground (arith, same, comma, here, miss, found, inner), close)
    ]

object-Found :
    (key : Text) (v : Value) (fs : List (Text × Value))
    → is_key key ≡ true
    → All (λ f. is_apart key f ≡ true) fs
    → get key fs ≡ some v
    → Found key v (write_object fs)
object-Found key v [] n a h = cc
object-Found key v (f ∷ fs) n a h =
    let (d, t, found, last) = tail-Found key v (f ∷ fs) n a h in
    let comma = find-one key (write_member f (write_tail fs)) b',' refl in
    let brace = find-one key (write_member f (write_tail fs)) b'{' refl in
    (d, t, ground (arith, found, comma, brace), last)

read_string-plain : (s t : Text) → is_plain s ≡ true → read_string (s ++ b'"' ∷ t) ≡ some s
unfolding read_string
read_string-plain [] [] p = refl
read_string-plain [] (c ∷ t) p = refl
read_string-plain (c ∷ []) t p = ground (arith, read_string-plain [] t refl)
read_string-plain (c ∷ d ∷ s) t p = ground (arith, read_string-plain (d ∷ s) t)

digits_of-digits :
    (s t : Text) (d : ℕ) → all_digits s ≡ true → is_end d ≡ true → digits_of (s ++ d ∷ t) ≡ s
unfolding digits_of all_digits
digits_of-digits [] t d h e = ground arith
digits_of-digits (c ∷ s) t d h e = ground (arith, digits_of-digits s t d)

skip_space-digits :
    (s t : Text) (d : ℕ)
    → all_digits s ≡ true
    → is_end d ≡ true
    → skip_space (s ++ d ∷ t) ≡ s ++ d ∷ t
unfolding skip_space all_digits
skip_space-digits [] t d h e = ground arith
skip_space-digits (c ∷ s) t d h e = ground arith

colon-first : (t : Text) → find_after (bytes ":") (b':' ∷ t) ≡ some t
unfolding find_after after_prefix
colon-first t = refl

value_start-Found :
    (key : Text) (v : Value) (json : Text)
    → (found : Found key v json)
    → value_start json key ≡ some (skip_space (write_value v (found.0 ∷ found.1)))
unfolding value_start
value_start-Found key v json (d, t, found, last) = rw (found, value_start) (rw (colon-first _) refl)

-- In a JSON object, written without spaces, whose keys are names and whose texts need no escape
-- and are not the key asked for, the text under a key is read, wherever it stands.
pub string_value-object :
    (key s : Text) (fs : List (Text × Value))
    → is_key key ≡ true
    → All (λ f. is_apart key f ≡ true) fs
    → is_plain s ≡ true
    → get key fs ≡ some (str s)
    → string_value (write_object fs) key ≡ some s
unfolding string_value opened skip_space
string_value-object key s fs n a p h =
    let found = object-Found key (str s) fs n a h in
    rw (value_start-Found key (str s) (write_object fs) found) (read_string-plain s _ p)

pub unsigned_value-object :
    (key : Text) (m : ℕ) (fs : List (Text × Value))
    → is_key key ≡ true
    → All (λ f. is_apart key f ≡ true) fs
    → m < 2 ^ 64
    → get key fs ≡ some (num m)
    → unsigned_value (write_object fs) key ≡ some m
unfolding unsigned_value
unsigned_value-object key m fs n a b h =
    let found = object-Found key (num m) fs n a h in
    let (d, t, seen, last) = found in
    let printed = all_digits-to_string m in
    rw (value_start-Found key (num m) (write_object fs) found) (
      rw (skip_space-digits (to_string m) t d printed last)
        (rw (digits_of-digits (to_string m) t d printed last) (from_chars-to_string m b)))
