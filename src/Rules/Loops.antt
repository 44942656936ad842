-- ===== src/Rules/Loops.antt =====
-- The loops over the elements of an array and the members of an object come to an end.
use neta_agent.Prelude.{
  ℕ, zero, suc, ◌≤◌, ◌<◌, ◌≡◌, ◌⊎◌, subst, refl, some, List, ◌∷◌, Text, ◌==◌, nat_eq, text_eq,
  length, any, arith, Option-cases, Bool-cases, inl, inr,
}
use neta_agent.Prelude.Search.{skip_space}
use neta_agent.Rules.Lexer.{parse_string}
use neta_agent.Rules.Json.{
  Doubles, Parsed, done, bad, tired, consume, JsonValue, Values, Members, with_value, with_member,
  elements, members,
}
use neta_agent.Rules.Consumes.{skip_space-shorter, consume-shorter, Shorter, parse_string-Shorter}

-- The parser ended, and where it gives a value, the text left is shorter than `n`.
abbrev pub Ends : {A : Type 0} → ℕ → Parsed A → Type 0
Ends n (done a rest) = length rest < n
Ends n bad = Unit
Ends n tired = ⊥

-- How a parser that ends came to its end.
pub ended :
    {A : Type 0} (n : ℕ) (r : Parsed A)
    → Ends n r
    → (r ≡ bad) ⊎ ((a : A) × (rest : Text) × (r ≡ done a rest) × (length rest < n))
ended n (done a rest) h = inr (a, rest, refl, h)
ended n bad h = inl refl
ended n tired h = absurd h

module _ (doubles : Doubles) where
  -- The parser of the parts ends on texts shorter than `n`, and takes some of them.
  abbrev pub EndsBelow : (Text → Parsed (JsonValue doubles)) → ℕ → Type 0
  EndsBelow self n = (s : Text) → length s < n → Ends (length s) (self s)

  pub wider : {A : Type 0} (n m : ℕ) (r : Parsed A) → m ≤ n → Ends m r → Ends n r
  wider n m (done a rest) le h = omega (arith, h, le)
  wider n m bad le h = tt
  wider n m tired le h = h

  with_value-Ends :
      (n : ℕ) (v : JsonValue doubles) (r : Parsed (Values doubles))
      → Ends n r
      → Ends n (with_value doubles v r)
  with_value-Ends n v (done vs rest) h = h
  with_value-Ends n v bad h = tt
  with_value-Ends n v tired h = h

  pub elements-Ends :
      (self : Text → Parsed (JsonValue doubles)) (n fuel : ℕ) (s : Text)
      → EndsBelow self n
      → length s < n
      → length s < fuel
      → Ends (length s) (elements doubles self fuel s)
  unfolding elements
  elements-Ends self n zero s ends small enough = absurd (omega (arith, enough))
  elements-Ends self n (suc fuel) s ends small enough = elim (ended _ (self s) (ends s small)) [
    | inl fails ↦ rw (fails, elements) tt
    | inr (v, rest, parsed, less) ↦ elim (Option-cases (consume b']' rest)) [
      | inr (after, closed) ↦
          let last = consume-shorter b']' rest after closed in
          rw (parsed, elements) (rw (closed, elements) (omega (arith, less, last)))
      | inl open_list ↦ elim (Option-cases (consume b',' rest)) [
        | inl broken ↦ rw (parsed, elements) (rw (open_list, elements) (rw (broken, elements) tt))
        | inr (after, comma) ↦
            let fewer = consume-shorter b',' rest after comma in
            let more =
              elements-Ends self n fuel after ends (omega (arith, small, less, fewer))
                (omega (arith, enough, less, fewer)) in
            rw (parsed, elements)
              (rw (open_list, elements)
                (rw (comma, elements)
                  (with_value-Ends _ v _ (wider _ _ _ (omega (arith, less, fewer)) more))))
      ]
    ]
  ]

  with_member-Ends :
      (n : ℕ) (key : Text) (v : JsonValue doubles) (r : Parsed (Members doubles))
      → Ends n r
      → Ends n (with_member doubles key v r)
  with_member-Ends n key v (done ms rest) h = h
  with_member-Ends n key v bad h = tt
  with_member-Ends n key v tired h = h

  -- A key and its colon.
  named-shorter :
      (s key rest from : Text)
      → parse_string (skip_space s) ≡ some (key, rest)
      → consume b':' rest ≡ some from
      → length from < length s
  named-shorter s key rest from named colon =
      let token =
        subst (Shorter (length (skip_space s))) named (parse_string-Shorter (skip_space s)) in
      omega (arith, token, skip_space-shorter s, consume-shorter b':' rest from colon)

  pub members-Ends :
      (self : Text → Parsed (JsonValue doubles)) (n fuel : ℕ) (keys : List Text) (s : Text)
      → EndsBelow self n
      → length s < n
      → length s < fuel
      → Ends (length s) (members doubles self fuel keys s)
  unfolding members
  members-Ends self n zero keys s ends small enough = absurd (omega (arith, enough))
  members-Ends self n (suc fuel) keys s ends small enough =
      elim (Option-cases (parse_string (skip_space s))) [
        | inl unnamed ↦ rw (unnamed, members) tt
        | inr ((key, tail), named) ↦ elim (Option-cases (consume b':' tail)) [
          | inl bare ↦ rw (named, members) (rw (bare, members) tt)
          | inr (from, colon) ↦
              let start = named-shorter s key tail from named colon in
              elim (ended _ (self from) (ends from (omega (arith, start, small)))) [
                | inl fails ↦ rw (named, members) (rw (colon, members) (rw (fails, members) tt))
                | inr (v, rest, parsed, less) ↦ elim (Bool-cases (any (λ k. k == key) keys)) [
                  | inl twice ↦
                      rw (named, members)
                        (rw (colon, members) (rw (parsed, members) (rw (twice, members) tt)))
                  | inr once ↦ elim (Option-cases (consume b'}' rest)) [
                    | inr (after, closed) ↦
                        let last = consume-shorter b'}' rest after closed in
                        rw (named, members)
                          (rw (colon, members)
                            (rw (parsed, members)
                              (rw (once, members)
                                (rw (closed, members) (omega (arith, start, less, last))))))
                    | inl open_list ↦ elim (Option-cases (consume b',' rest)) [
                      | inl broken ↦
                          rw (named, members)
                            (rw (colon, members)
                              (rw (parsed, members)
                                (rw (once, members)
                                  (rw (open_list, members) (rw (broken, members) tt)))))
                      | inr (after, comma) ↦
                          let fewer = consume-shorter b',' rest after comma in
                          let more =
                            members-Ends self n fuel (key ∷ keys) after ends
                              (omega (arith, small, start, less, fewer))
                              (omega (arith, enough, start, less, fewer)) in
                          rw (named, members)
                            (rw (colon, members)
                              (rw (parsed, members)
                                (rw (once, members)
                                  (rw (open_list, members)
                                    (rw (comma, members)
                                      (with_member-Ends _ key v _
                                        (wider _ _ _ (omega (arith, start, less, fewer)) more)))))))
                    ]
                  ]
                ]
              ]
        ]
      ]
