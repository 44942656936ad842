-- ===== src/Rules/Ends.antt =====
-- The reader of rule sets always comes to an end.
use neta_agent.Prelude.{
  ℕ, zero, suc, ◌≤◌, ◌<◌, ◌≡◌, ◌⊎◌, subst, refl, Bool, true, false, ◌||◌, [], ◌∷◌, Text, bytes,
  ◌==◌, nat_eq, text_eq, length, is_empty, arith, Option-cases, Bool-cases, inl, inr, if◌then◌else◌,
}
use neta_agent.Prelude.Decimal.{is_digit}
use neta_agent.Prelude.Search.{skip_space, after_prefix}
use neta_agent.Rules.Lexer.{parse_string, number_text}
use neta_agent.Rules.Json.{
  Doubles, Parsed, done, bad, tired, consume, JsonValue, Values, Members, elements, members,
  to_array, to_object, parse_array, parse_object, parse_literal, parse_number, parse_text, by_first,
  parse_value, parse, boolean, null,
}
use neta_agent.Rules.Consumes.{
  skip_space-shorter, consume-shorter, prefix-shorter, Shorter, parse_string-Shorter,
  number_text-Shorter,
}
use neta_agent.Rules.Loops.{Ends, ended, EndsBelow, wider, elements-Ends, members-Ends}

module _ (doubles : Doubles) where
  parse_array-Ends :
      (self : Text → Parsed (JsonValue doubles)) (n : ℕ) (s : Text)
      → EndsBelow doubles self n
      → length s < n
      → Ends (suc (length s)) (parse_array doubles self s)
  unfolding parse_array
  parse_array-Ends self n s ends small = elim (Option-cases (consume b']' s)) [
    | inr (rest, closed) ↦
        let last = consume-shorter b']' s rest closed in
        rw (closed, parse_array) (omega (arith, last))
    | inl open_list ↦
        rw (open_list, parse_array)
          (as_array (elements doubles self (suc (length s)) s)
            (elements-Ends doubles self n (suc (length s)) s ends small (omega arith)))
  ]
    where
      as_array :
          (r : Parsed (Values doubles))
          → Ends (length s) r
          → Ends (suc (length s)) (to_array doubles r)
      as_array (done vs rest) h = omega (arith, h)
      as_array bad h = tt
      as_array tired h = h

  parse_object-Ends :
      (self : Text → Parsed (JsonValue doubles)) (n : ℕ) (s : Text)
      → EndsBelow doubles self n
      → length s < n
      → Ends (suc (length s)) (parse_object doubles self s)
  unfolding parse_object
  parse_object-Ends self n s ends small = elim (Option-cases (consume b'}' s)) [
    | inr (rest, closed) ↦
        let last = consume-shorter b'}' s rest closed in
        rw (closed, parse_object) (omega (arith, last))
    | inl open_list ↦
        rw (open_list, parse_object)
          (as_object (members doubles self (suc (length s)) [] s)
            (members-Ends doubles self n (suc (length s)) [] s ends small (omega arith)))
  ]
    where
      as_object :
          (r : Parsed (Members doubles))
          → Ends (length s) r
          → Ends (suc (length s)) (to_object doubles r)
      as_object (done ms rest) h = omega (arith, h)
      as_object bad h = tt
      as_object tired h = h

  parse_literal-Ends :
      (c : ℕ) (literal s : Text) (v : JsonValue doubles)
      → Ends (length s) (parse_literal doubles (c ∷ literal) v s)
  unfolding parse_literal
  parse_literal-Ends c literal s v = elim (Option-cases (after_prefix (c ∷ literal) s)) [
    | inl other ↦ rw (other, parse_literal) tt
    | inr (rest, found) ↦
        let taken = prefix-shorter (c ∷ literal) s rest found in
        rw (found, parse_literal) (omega (arith, taken))
  ]

  parse_number-Ends : (s : Text) → Ends (length s) (parse_number doubles s)
  unfolding parse_number
  parse_number-Ends s = elim (Option-cases (number_text s)) [
    | inl none_there ↦ rw (none_there, parse_number) tt
    | inr ((token, rest), found) ↦
        let taken = subst (Shorter (length s)) found (number_text-Shorter s) in
        elim (Option-cases (doubles.strtod token)) [
          | inl infinite ↦ rw (found, parse_number) (rw (infinite, parse_number) tt)
          | inr (d, finite) ↦ rw (found, parse_number) (rw (finite, parse_number) taken)
        ]
  ]

  parse_text-Ends : (s : Text) → Ends (length s) (parse_text doubles s)
  unfolding parse_text
  parse_text-Ends s = elim (Option-cases (parse_string s)) [
    | inl none_there ↦ rw (none_there, parse_text) tt
    | inr ((token, rest), found) ↦
        rw (found, parse_text) (subst (Shorter (length s)) found (parse_string-Shorter s))
  ]

  if-Ends :
      (n : ℕ) (b : Bool) (x y : Parsed (JsonValue doubles))
      → Ends n x
      → Ends n y
      → Ends n (if b then x else y)
  if-Ends n true x y h k = h
  if-Ends n false x y h k = k

  by_first-Ends :
      (self : Text → Parsed (JsonValue doubles)) (n : ℕ) (s : Text)
      → EndsBelow doubles self n
      → length s ≤ n
      → Ends (length s) (by_first doubles self s)
  unfolding by_first
  by_first-Ends self n [] ends small = tt
  by_first-Ends self n (c ∷ s) ends small =
      let within : length s < n = omega (arith, small) in
      if-Ends _ (c == b'{') _ _ (parse_object-Ends self n s ends within) (
        if-Ends _ (c == b'[') _ _ (parse_array-Ends self n s ends within) (
          if-Ends _ (c == b'"') _ _ (parse_text-Ends (c ∷ s)) (
            if-Ends _ (c == b't') _ _ (parse_literal-Ends b't' (bytes "rue") (c ∷ s) (boolean true))
              (if-Ends _ (c == b'f') _ _
                (parse_literal-Ends b'f' (bytes "alse") (c ∷ s) (boolean false))
                (if-Ends _ (c == b'n') _ _ (parse_literal-Ends b'n' (bytes "ull") (c ∷ s) null)
                  (if-Ends _ (c == b'-' || is_digit c) _ _ (parse_number-Ends (c ∷ s)) tt))))))

  -- With more fuel than the text is long the parser of a value ends.
  parse_value-Ends : (n : ℕ) → EndsBelow doubles (parse_value doubles n) n
  unfolding parse_value
  parse_value-Ends zero s small = absurd (omega (arith, small))
  parse_value-Ends (suc n) s small =
      let skipped = skip_space-shorter s in
      wider doubles _ _ _ skipped (
        by_first-Ends (parse_value doubles n) n (skip_space s) (parse_value-Ends n)
          (omega (arith, skipped, small)))

  -- The fuel that `parse` starts with is enough: on every text the reader gives a value of the whole
  -- text, or refuses it.
  pub parse-ends :
      (input : Text)
      → (parse doubles input ≡ bad) ⊎ ((v : JsonValue doubles) × (parse doubles input ≡ done v []))
  unfolding parse
  parse-ends input =
      elim (ended _ (parse_value doubles (suc (length input)) input)
        (parse_value-Ends (suc (length input)) input (omega arith))) [
          | inl fails ↦ inl (rw (fails, parse) refl)
          | inr (v, rest, parsed, less) ↦ elim (Bool-cases (is_empty (skip_space rest))) [
            | inl whole ↦ inr (v, rw (parsed, parse) (rw (whole, parse) refl))
            | inr trailing ↦ inl (rw (parsed, parse) (rw (trailing, parse) refl))
          ]
        ]
