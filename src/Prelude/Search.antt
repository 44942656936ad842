-- ===== src/Prelude/Search.antt =====
-- Prefixes of texts, and the first occurrence of a text in another one, as `find` and `substr` give
-- them.
use native.Mathlib.Omega.{arith}
use mathlib.Core.Path.{◌≡◌, refl}
use Prim.Native.Nat.{ℕ}
use mathlib.Core.Bool.{Bool, true, false, ◌&&◌, ◌||◌}
use mathlib.Core.Option.{Option, none, some}
use mathlib.Core.List.{[], ◌∷◌, ◌++◌}
use neta_agent.Prelude.Lists.{is_some}
use neta_agent.Prelude.Tests.{leb, if◌then◌else◌}
use neta_agent.Prelude.Equality.{Text, ◌==◌, nat_eq}

unfoldable pub starts_with : Text → Text → Bool
starts_with [] s = true
starts_with (p ∷ ps) [] = false
starts_with (p ∷ ps) (c ∷ s) = if p == c then starts_with ps s else false

-- What follows the prefix.
unfoldable pub after_prefix : Text → Text → Option Text
after_prefix [] s = some s
after_prefix (p ∷ ps) [] = none
after_prefix (p ∷ ps) (c ∷ s) = if p == c then after_prefix ps s else none

-- What follows the first occurrence.
unfoldable pub find_after : Text → Text → Option Text
unfolding after_prefix
find_after pattern [] = after_prefix pattern []
find_after pattern (c ∷ s) =
    let later = find_after pattern s in
    elim (after_prefix pattern (c ∷ s)) [ none ↦ later | some rest ↦ some rest ]

unfoldable pub contains : Text → Text → Bool
unfolding find_after
contains text pattern = is_some (find_after pattern text)

pub after_prefix-append : (p s : Text) → after_prefix p (p ++ s) ≡ some s
unfolding after_prefix
after_prefix-append [] s = refl
after_prefix-append (c ∷ p) s = ground (arith, after_prefix-append p s)

pub starts_with-append : (p s : Text) → starts_with p (p ++ s) ≡ true
unfolding starts_with
starts_with-append [] s = refl
starts_with-append (c ∷ p) s = ground (arith, starts_with-append p s)

-- `std::isspace` in the C locale.
abbrev pub is_space : ℕ → Bool
is_space c = leb 9 c && leb c 13 || c == 32

unfoldable pub skip_space : Text → Text
skip_space [] = []
skip_space (c ∷ s) = let rest = skip_space s in if is_space c then rest else c ∷ s
