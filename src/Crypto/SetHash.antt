-- ===== src/Crypto/SetHash.antt =====
-- The hash of a set of evidence, which src/core/tls_session.cpp and src/core/name_resolution.cpp
-- compute in the same way from the hashes of its elements.
use mathlib.Core.List.{Perm}
use mathlib.Core.List.Perm
use neta_agent.Prelude.{◌≡◌, ◌≢◌, refl, sym, ap, List, [], ◌∷◌, map, Text}
use neta_agent.Prelude.Sort.{sort, sort-Perm, join_after}
use neta_agent.Crypto.{Sha256, sha256_hex}

module _ {A : Type 0} (sha : Sha256) (hash : A → Text) where
  unfoldable pub set_hash : List A → Text
  unfolding sort join_after sha256_hex
  set_hash [] = []
  set_hash (x ∷ xs) = sha256_hex sha (join_after [] (sort (map hash (x ∷ xs))))

  cons-ne-nil : (x : A) (xs : List A) → x ∷ xs ≢ []
  cons-ne-nil x xs h = cc

  -- The order of the elements does not matter.
  pub set_hash-Perm : (xs ys : List A) → Perm xs ys → set_hash xs ≡ set_hash ys
  unfolding set_hash
  set_hash-Perm [] [] d = refl
  set_hash-Perm [] (y ∷ ys) d = absurd (cons-ne-nil y ys (sym (Perm.nil-eq d)))
  set_hash-Perm (x ∷ xs) [] d = absurd (cons-ne-nil x xs (Perm.eq-nil d))
  set_hash-Perm (x ∷ xs) (y ∷ ys) d =
      ap (λ hashes. sha256_hex sha (join_after [] hashes)) (sort-Perm (Perm.map hash d))
