-- ===== src/Prelude/Sort.antt =====
-- `std::sort` of texts, in the order of `std::string`, and `|` between texts.
use mathlib.Core.Logic.{∥∥₁_elim}
use mathlib.Core.Path.{◌≡◌, refl, sym, ap, subst, ◌∙◌}
use mathlib.Core.Logic.{inl, inr}
use mathlib.Core.Bool.{Bool, true, false, ◌||◌}
use mathlib.Core.List.{List, [], ◌∷◌, ◌++◌, map, Perm, Permᴰ}
use mathlib.Core.List
use native.Mathlib.Nat.{ℕ_set}
use native.Mathlib.Omega.{arith}
use neta_agent.Prelude.Tests.{ltb, if◌then◌else◌, Bool-cases}
use neta_agent.Prelude.Lists.{is_empty}
use neta_agent.Prelude.Equality.{Text, ◌==◌, nat_eq}

unfoldable pub text_leb : Text → Text → Bool
text_leb [] t = true
text_leb (a ∷ s) [] = false
text_leb (a ∷ s) (b ∷ t) = if ltb a b then true else if a == b then text_leb s t else false

text_leb_total : (s t : Text) → (text_leb s t || text_leb t s) ≡ true
unfolding text_leb
text_leb_total [] [] = refl
text_leb_total [] (b ∷ t) = refl
text_leb_total (a ∷ s) [] = refl
text_leb_total (a ∷ s) (b ∷ t) = ground (arith, text_leb_total s t)

text_leb_antisym : (s t : Text) → text_leb s t ≡ true → text_leb t s ≡ true → s ≡ t
unfolding text_leb
text_leb_antisym [] [] h k = refl
text_leb_antisym [] (b ∷ t) h k = cc
text_leb_antisym (a ∷ s) [] h k = cc
text_leb_antisym (a ∷ s) (b ∷ t) h k = ground (arith, h, k, text_leb_antisym s t)

text_leb_trans : (s t u : Text) → text_leb s t ≡ true → text_leb t u ≡ true → text_leb s u ≡ true
unfolding text_leb
text_leb_trans [] t u h k = refl
text_leb_trans (a ∷ s) [] u h k = cc
text_leb_trans (a ∷ s) (b ∷ t) [] h k = cc
text_leb_trans (a ∷ s) (b ∷ t) (c ∷ u) h k = ground (arith, h, k, text_leb_trans s t u)

unfoldable pub insert_sorted : Text → List Text → List Text
insert_sorted a [] = a ∷ []
insert_sorted a (b ∷ rest) =
    let later = insert_sorted a rest in if text_leb a b then a ∷ b ∷ rest else b ∷ later

unfoldable pub sort : List Text → List Text
unfolding insert_sorted
sort [] = []
sort (a ∷ rest) = insert_sorted a (sort rest)

insert-strict :
    (a b : Text) (rest : List Text)
    → text_leb a b ≡ true
    → text_leb b a ≡ false
    → insert_sorted a (insert_sorted b rest) ≡ insert_sorted b (insert_sorted a rest)
unfolding insert_sorted
insert-strict a b [] up down = ground (arith, up, down)
insert-strict a b (x ∷ rest) up down = elim (Bool-cases (text_leb a x)) [
  | inl ax ↦ elim (Bool-cases (text_leb b x)) [
    | inl bx ↦ ground (arith, up, down, ax, bx)
    | inr no_bx ↦ ground (arith, up, down, ax, no_bx)
  ]
  | inr no_ax ↦ elim (Bool-cases (text_leb b x)) [
    | inl bx ↦ absurd (ground (arith, no_ax, text_leb_trans a b x up bx))
    | inr no_bx ↦ ground (arith, no_ax, no_bx, insert-strict a b rest up down)
  ]
]

insert-insert :
    (a b : Text) (rest : List Text)
    → insert_sorted a (insert_sorted b rest) ≡ insert_sorted b (insert_sorted a rest)
insert-insert a b rest = elim (Bool-cases (text_leb a b)) [
  | inl up ↦ elim (Bool-cases (text_leb b a)) [
    | inl down ↦
        subst (λ x. insert_sorted a (insert_sorted x rest) ≡ insert_sorted x (insert_sorted a rest))
          (text_leb_antisym a b up down) refl
    | inr no_down ↦ insert-strict a b rest up no_down
  ]
  | inr no_up ↦
      let down : text_leb b a ≡ true = ground (arith, no_up, text_leb_total a b) in
      sym (insert-strict b a rest down no_up)
]

permuted : {xs ys : List Text} → Permᴰ xs ys → sort xs ≡ sort ys
unfolding sort
permuted Permᴰ.nil = refl
permuted (Permᴰ.cons {b = b} {l₁ = l} same d) =
    ap (λ x. insert_sorted x (sort l)) same ∙ ap (insert_sorted b) (permuted d)
permuted (Permᴰ.swap {a = a} {b = b} {b' = c} {l = l} p q) =
    insert-insert a b (sort l)
    ∙ ap (λ x. insert_sorted b (insert_sorted x (sort l))) p
    ∙ ap (λ x. insert_sorted x (insert_sorted c (sort l))) q
permuted (Permᴰ.trans d e) = permuted d ∙ permuted e

-- The order in which the texts come does not matter.
pub sort-Perm : {xs ys : List Text} → Perm xs ys → sort xs ≡ sort ys
sort-Perm {xs} {ys} d = ∥∥₁_elim d (List.is_set (List.is_set ℕ_set) (sort xs) (sort ys)) permuted

-- `|` before each text but the first, where what stands before is not empty.
unfoldable pub join_after : Text → List Text → Text
join_after material [] = material
join_after material (hash ∷ rest) =
    join_after ((if is_empty material then [] else material ++ b'|' ∷ []) ++ hash) rest
