-- ===== src/Rules/Escapes.antt =====
-- What the agent escapes, in src/core/outbound_dispatcher.cpp, the reader of rule sets reads back.
use mathlib.Core.List.{append_assoc}
use neta_agent.Prelude.{
  ℕ, ◌+◌, ◌*◌, ◌/◌, ◌%◌, ◌<◌, ◌≡◌, refl, ◌∙◌, ap, true, false, some, [], ◌∷◌, ◌++◌, Text, ◌==◌,
  nat_eq, arith, ltb, ltb→lt, Bool-cases, inl, inr,
}
use neta_agent.Crypto.{hex_digit}
use neta_agent.Dispatch.Wording.{escape, json_escape}
use neta_agent.Rules.Lexer.{
  plain, push, hex_value, is_surrogate, append_utf8, string_body, parse_string,
}

hex_value-hex_digit : (d : ℕ) → d < 16 → hex_value (hex_digit d) ≡ some d
hex_value-hex_digit d h = ground arith

low_surrogate : (c : ℕ) → c < 32 → is_surrogate c ≡ false
low_surrogate c h = ground arith

low_utf8 : (c : ℕ) → c < 32 → append_utf8 c ≡ c ∷ []
unfolding append_utf8
low_utf8 c h = ground arith

-- A character written as `\u00` and two digits.
read-unicode :
    (c : ℕ) (t : Text)
    → c < 32
    → string_body plain (b'\\' ∷ b'u' ∷ b'0' ∷ b'0' ∷ hex_digit (c / 16) ∷ hex_digit (c % 16) ∷ t)
      ≡ push (c ∷ []) (string_body plain t)
unfolding string_body append_utf8
read-unicode c t h =
    let high = hex_value-hex_digit (c / 16) (omega arith) in
    let low = hex_value-hex_digit (c % 16) (omega arith) in
    let whole : (0 * 16 + c / 16) * 16 + c % 16 ≡ c = omega arith in
    rw high (rw low (rw whole (rw (low_surrogate c h) (rw (low_utf8 c h) refl))))

-- A character that is neither special nor a control character.
read-plain :
    (c : ℕ) (t : Text)
    → (c == b'\\') ≡ false
    → (c == b'"') ≡ false
    → ltb c 32 ≡ false
    → string_body plain (c ∷ t) ≡ push (c ∷ []) (string_body plain t)
unfolding string_body
read-plain c t a b f = rw (a, string_body) (rw (b, string_body) (rw (f, string_body) refl))

same_number : (c d : ℕ) → (c == d) ≡ true → c ≡ d
same_number c d h = ground arith

-- An escaped character is read back.
read-escape :
    (c : ℕ) (t : Text) → string_body plain (escape c ++ t) ≡ push (c ∷ []) (string_body plain t)
unfolding escape string_body
read-escape c t = elim (Bool-cases (c == b'\\')) [
  | inl backslash ↦ rw (same_number c b'\\' backslash) refl
  | inr a ↦ elim (Bool-cases (c == b'"')) [
    | inl quote ↦ rw (same_number c b'"' quote) refl
    | inr b ↦ elim (Bool-cases (c == 10)) [
      | inl feed ↦ rw (same_number c 10 feed) refl
      | inr d ↦ elim (Bool-cases (c == 13)) [
        | inl carriage ↦ rw (same_number c 13 carriage) refl
        | inr e ↦ elim (Bool-cases (c == 9)) [
          | inl tab ↦ rw (same_number c 9 tab) refl
          | inr f ↦ elim (Bool-cases (ltb c 32)) [
            | inl control ↦
                rw (a, escape)
                  (rw (b, escape)
                    (rw (d, escape)
                      (rw (e, escape)
                        (rw (f, escape)
                          (rw (control, escape) (read-unicode c t (ltb→lt c 32 control)))))))
            | inr other ↦
                rw (a, escape)
                  (rw (b, escape)
                    (rw (d, escape)
                      (rw (e, escape)
                        (rw (f, escape) (rw (other, escape) (read-plain c t a b other))))))
          ]
        ]
      ]
    ]
  ]
]

read-all : (s t : Text) → string_body plain (json_escape s ++ b'"' ∷ t) ≡ some (s, t)
unfolding json_escape string_body
read-all [] t = refl
read-all (c ∷ s) t =
    rw (append_assoc (escape c) (json_escape s) (b'"' ∷ t))
      (read-escape c (json_escape s ++ b'"' ∷ t) ∙ ap (push (c ∷ [])) (read-all s t))

-- Any text, escaped by the agent and put in quotes, is read back by the reader of rule sets, with
-- the text that follows.
pub parse_string-json_escape :
    (s t : Text) → parse_string (b'"' ∷ (json_escape s ++ b'"' ∷ t)) ≡ some (s, t)
unfolding parse_string
parse_string-json_escape s t = read-all s t
