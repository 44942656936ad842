-- ===== src/Crypto.antt =====
-- `sha256_hex` of src/core/crypto.cpp: OpenSSL's digest, printed in hexadecimal. The digest is a
-- parameter, of which only its documented form is used: 32 bytes.
use neta_agent.Prelude.{
  ℕ, ◌+◌, ◌*◌, ◌/◌, ◌%◌, ◌<◌, ◌≡◌, false, List, [], ◌∷◌, Text, arith, ltb, if◌then◌else◌, length,
  any, nat_beq, All, refl,
}
pub mod SetHash

pub record Sha256 : Type 0 where
  pub digest : Text → List ℕ
  pub digest_length : (t : Text) → length (digest t) ≡ 32
  pub digest_bytes : (t : Text) → All (λ b. b < 256) (digest t)

abbrev pub hex_digit : ℕ → ℕ
hex_digit d = if ltb d 10 then 48 + d else 87 + d

unfoldable pub hex : List ℕ → Text
hex [] = []
hex (b ∷ bs) = hex_digit (b / 16) ∷ hex_digit (b % 16) ∷ hex bs

unfoldable pub sha256_hex : Sha256 → Text → Text
unfolding hex
sha256_hex sha t = hex (sha.digest t)

length-hex : (bs : List ℕ) → length (hex bs) ≡ 2 * length bs
unfolding hex
length-hex [] = refl
length-hex (b ∷ bs) = omega (arith, length-hex bs)

hex-no_nul : (bs : List ℕ) → any (λ c. nat_beq c 0) (hex bs) ≡ false
unfolding hex
hex-no_nul [] = refl
hex-no_nul (b ∷ bs) = ground (arith, hex-no_nul bs)

pub length-sha256_hex : (sha : Sha256) (t : Text) → length (sha256_hex sha t) ≡ 64
unfolding sha256_hex
length-sha256_hex sha t = omega (arith, length-hex (sha.digest t), sha.digest_length t)

pub sha256_hex-no_nul :
    (sha : Sha256) (t : Text) → any (λ c. nat_beq c 0) (sha256_hex sha t) ≡ false
unfolding sha256_hex
sha256_hex-no_nul sha t = hex-no_nul (sha.digest t)

hex_digit-injective : (a b : ℕ) → a < 16 → b < 16 → hex_digit a ≡ hex_digit b → a ≡ b
hex_digit-injective a b p q h = ground arith

hex-injective :
    (cs bs : List ℕ) → All (λ b. b < 256) cs → All (λ b. b < 256) bs → hex cs ≡ hex bs → cs ≡ bs
unfolding hex
hex-injective [] [] p q h = refl
hex-injective [] (b ∷ bs) p q h = cc
hex-injective (a ∷ cs) [] p q h = cc
hex-injective (a ∷ cs) (b ∷ bs) p q h = ground (arith, hex-injective cs bs)

-- Two texts have one hexadecimal hash only if they have one digest.
pub sha256_hex-injective :
    (sha : Sha256) (s t : Text) → sha256_hex sha s ≡ sha256_hex sha t → sha.digest s ≡ sha.digest t
unfolding sha256_hex
sha256_hex-injective sha s t h =
    hex-injective (sha.digest s) (sha.digest t) (sha.digest_bytes s) (sha.digest_bytes t) h
