-- ===== src/Httpfile/Lines.antt =====
-- plugins/official/httpfile/httpfile.cpp: lines, searches and skips stay in the text that they read.
use aistream.Base.{
  ℕ, zero, suc, ◌≤◌, ◌≡◌, refl, sym, ap, ◌∙◌, ◌==◌, Bool, not, ◌&&◌, ◌||◌, some, option, List, [],
  ◌∷◌, ◌++◌, Text, text_eq, length, take, inl, inr, arith, Bool-cases, none≢some,
}
use mathlib.Core.List.{append_assoc}
use aistream.Httpfile.{is_end, next_line, get_next_line, drop, strstr, str_line, contains}

-- The list ends with the other.
abbrev pub IsTail : List ℕ → List ℕ → Type 0
IsTail tail bytes = (before : List ℕ) × (bytes ≡ before ++ tail)

pub IsTail-trans : (a b c : List ℕ) → IsTail a b → IsTail b c → IsTail a c
IsTail-trans a b c (p, e) (q, f) = (q ++ p, f ∙ ap (λ t. q ++ t) e ∙ sym (append_assoc q p a))

pub IsTail-cons : (x : ℕ) (a b : List ℕ) → IsTail a b → IsTail a (x ∷ b)
IsTail-cons x a b (p, e) = (x ∷ p, ap (◌∷◌ x) e)

pub IsTail-refl : (a : List ℕ) → IsTail a a
IsTail-refl a = ([], refl)

pub drop-IsTail : (n : ℕ) (bytes : List ℕ) → IsTail (drop n bytes) bytes
unfolding drop
drop-IsTail zero bytes = IsTail-refl bytes
drop-IsTail (suc n) [] = ([], refl)
drop-IsTail (suc n) (c ∷ bytes) = IsTail-cons c (drop n bytes) bytes (drop-IsTail n bytes)

-- The line is the start of the text, and with its terminator it fits in the array.
pub next_line_lem :
    (n : ℕ) (flag : Bool) (input : List ℕ)
    → (input ≡ next_line n flag input ++ drop (length (next_line n flag input)) input)
      × (length (next_line n flag input) ≤ n)
unfolding next_line drop
next_line_lem zero flag input = (refl, omega arith)
next_line_lem (suc n) flag [] = (refl, omega arith)
next_line_lem (suc n) flag (c ∷ input) = elim (Bool-cases (c == 0 || (flag && not (is_end c)))) [
  | inl b ↦ rw b (refl, omega arith)
  | inr b ↦
      let (e, l) = next_line_lem n (flag || is_end c) input in rw b (ap (◌∷◌ c) e, omega (arith, l))
]

pub strstr-IsTail :
    (bytes : List ℕ) (word : Text) (found : List ℕ)
    → strstr bytes word ≡ some found
    → IsTail found bytes
unfolding strstr
strstr-IsTail [] word found e = elim (Bool-cases (text_eq word [])) [
  | inl b ↦ ([], ap (option [] (λ t. t)) (rw b at e))
  | inr b ↦ absurd (none≢some (rw b at e))
]
strstr-IsTail (c ∷ bytes) word found e =
    elim (Bool-cases (text_eq (take (length word) (c ∷ bytes)) word)) [
      | inl b ↦ ([], ap (option [] (λ t. t)) (rw b at e))
      | inr b ↦ elim (Bool-cases (c == 0)) [
        | inl z ↦ absurd (none≢some (rw (b, z) at e))
        | inr z ↦ IsTail-cons c found bytes (strstr-IsTail bytes word found (rw (b, z) at e))
      ]
    ]

pub str_line-IsTail :
    (n : ℕ) (input : List ℕ) (boundary : Text) (found : List ℕ)
    → str_line n input boundary ≡ some found
    → IsTail found input
unfolding str_line
str_line-IsTail zero input boundary found e = cc
str_line-IsTail (suc n) input boundary found e =
    let line = get_next_line input in
    elim (Bool-cases (length line == 0)) [
      | inl b ↦ absurd (none≢some (rw b at e))
      | inr b ↦ elim (Bool-cases (contains line boundary)) [
        | inl c ↦ ([], ap (option [] (λ t. t)) (rw (b, c) at e))
        | inr c ↦
            IsTail-trans found (drop (length line) input) input
              (str_line-IsTail n (drop (length line) input) boundary found (rw (b, c) at e))
              (drop-IsTail (length line) input)
      ]
    ]
