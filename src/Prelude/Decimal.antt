-- ===== src/Prelude/Decimal.antt =====
-- `std::to_string` and `std::from_chars` of unsigned numbers, and integers as a sign and a number.
use Prim.Native.Nat.{ℕ, zero, suc, ◌+◌, ◌-◌, ◌*◌, ◌/◌, ◌%◌, ◌^◌, ◌<◌, ◌≤◌}
use mathlib.Core.Path.{◌≡◌, refl, sym, ap, ◌∙◌}
use mathlib.Core.Logic.{◌≢◌}
use mathlib.Core.Bool.{Bool, true, ◌&&◌}
use mathlib.Core.Option.{Option, none, some}
use mathlib.Core.List.{[], ◌∷◌, ◌++◌}
use native.Mathlib.Omega.{arith}
use native.Mathlib.Nat.{pow-suc}
use neta_agent.Prelude.Lists.{length, length-append}
use neta_agent.Prelude.Tests.{ltb, leb, if◌then◌else◌}
use neta_agent.Prelude.Equality.{Text, bytes}

abbrev pub max_u64 : ℕ
max_u64 = 2 ^ 64 - 1

abbrev pub is_digit : ℕ → Bool
is_digit c = leb 48 c && leb c 57

-- Fuel `suc n` is enough for `n`, which each round divides by ten.
digits : ℕ → ℕ → Text
digits zero n = []
digits (suc f) n =
    let front = digits f (n / 10) in if ltb n 10 then (48 + n) ∷ [] else front ++ (48 + n % 10) ∷ []

unfoldable pub to_string : ℕ → Text
unfolding digits
to_string n = digits (suc n) n

-- The number that a row of digits denotes, after `acc`.
unfoldable pub value : ℕ → Text → ℕ
value acc [] = acc
value acc (c ∷ s) = value (acc * 10 + (c - 48)) s

unfoldable pub all_digits : Text → Bool
all_digits [] = true
all_digits (c ∷ s) = is_digit c && all_digits s

-- The whole text is read; a value past 64 bits is the error `result_out_of_range`.
unfoldable pub from_chars : Text → Option ℕ
unfolding all_digits value
from_chars [] = none
from_chars (c ∷ s) =
    if all_digits (c ∷ s)
    then if ltb max_u64 (value 0 (c ∷ s)) then none else some (value 0 (c ∷ s))
    else none

value-append : (acc : ℕ) (s t : Text) → value acc (s ++ t) ≡ value (value acc s) t
unfolding value
value-append acc [] t = refl
value-append acc (c ∷ s) t = value-append (acc * 10 + (c - 48)) s t

value-digits : (f n : ℕ) → n < f → value 0 (digits f n) ≡ n
unfolding digits value
value-digits zero n h = absurd (omega arith)
value-digits (suc f) n h =
    ground (arith, value-digits f (n / 10), value-append 0 (digits f (n / 10)) ((48 + n % 10) ∷ []))

all_digits-append :
    (s t : Text) → all_digits s ≡ true → all_digits t ≡ true → all_digits (s ++ t) ≡ true
unfolding all_digits
all_digits-append [] t p q = q
all_digits-append (c ∷ s) t p q = ground (arith, all_digits-append s t)

all_digits-digits : (f n : ℕ) → all_digits (digits f n) ≡ true
unfolding digits all_digits
all_digits-digits zero n = refl
all_digits-digits (suc f) n = ground (
  arith,
  all_digits-digits f (n / 10),
  all_digits-append (digits f (n / 10)) ((48 + n % 10) ∷ []),
)

pub value-to_string : (n : ℕ) → value 0 (to_string n) ≡ n
unfolding to_string
value-to_string n = value-digits (suc n) n (omega arith)

pub all_digits-to_string : (n : ℕ) → all_digits (to_string n) ≡ true
unfolding to_string
all_digits-to_string n = all_digits-digits (suc n) n

-- Two numbers with one text are one number.
pub to_string-injective : (m n : ℕ) → to_string m ≡ to_string n → m ≡ n
to_string-injective m n h = sym (value-to_string m) ∙ ap (value 0) h ∙ value-to_string n

from_chars-of_value :
    (s : Text) (n : ℕ)
    → all_digits s ≡ true
    → value 0 s ≡ n
    → s ≢ []
    → n < 2 ^ 64
    → from_chars s ≡ some n
unfolding from_chars
from_chars-of_value [] n d v e h = absurd (e refl)
from_chars-of_value (c ∷ s) n d v e h = ground arith

append_one-ne-nil : (s : Text) (c : ℕ) → s ++ c ∷ [] ≢ []
append_one-ne-nil [] c h = cc
append_one-ne-nil (d ∷ s) c h = cc

to_string-ne-nil : (n : ℕ) → to_string n ≢ []
unfolding to_string digits
to_string-ne-nil n h = ground (arith, append_one-ne-nil (digits n (n / 10)) (48 + n % 10))

-- A 64-bit number is read back from its text.
pub from_chars-to_string : (n : ℕ) → n < 2 ^ 64 → from_chars (to_string n) ≡ some n
from_chars-to_string n h =
    from_chars-of_value (to_string n) n (all_digits-to_string n) (value-to_string n)
      (to_string-ne-nil n) h

to_string_max : to_string max_u64 ≡ bytes "18446744073709551615"
unfolding to_string
to_string_max = refl

-- A number below a power of ten has at most that many digits.
length-digits : (k f n : ℕ) → n < 10 ^ suc k → length (digits f n) ≤ suc k
unfolding digits
length-digits k zero n h = omega arith
length-digits zero (suc f) n h = ground arith
length-digits (suc k) (suc f) n h = ground (
  arith,
  pow-suc 10 (suc k),
  length-digits k f (n / 10),
  length-append (digits f (n / 10)) ((48 + n % 10) ∷ []),
)

pub length-to_string : (n : ℕ) → n < 2 ^ 64 → length (to_string n) ≤ 20
unfolding to_string
length-to_string n h = length-digits 19 (suc n) n (omega arith)

pub from_chars-lt : (s : Text) (n : ℕ) → from_chars s ≡ some n → n < 2 ^ 64
unfolding from_chars
from_chars-lt [] n h = cc
from_chars-lt (c ∷ s) n h = ground arith
