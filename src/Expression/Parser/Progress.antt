-- ===== src/Expression/Parser/Progress.antt =====
-- The lexer and the parser make progress: what a token takes from the input pays for the fuel.
use Prim.Native.Char.{Char, code}
use Prim.Native.String.{[], ◌∷◌}
use open_actions.Base.{
  ℕ, suc, ◌+◌, ◌≤◌, String, Bool, true, false, ◌≡◌, refl, inl, inr, arith, ◌&&◌, ◌||◌, Option, none,
  some, ◌==◌, eqb, is_none, Bool-cases, if◌then◌else◌,
}
use open_actions.Base.Result.{Result, ok, err, ◌>>=◌}
use open_actions.Base.Text.{◌⧺◌}
use open_actions.Expression.Texts.{char_count, ascii_digit}
use open_actions.Expression.Value.{Runtime}
use open_actions.Expression.Node.{TokenKind, end_token}
use open_actions.Expression.Lexer.{
  SyntaxError, out_of_fuel, Token, Lexed, skip_spaces, span, string_rest, string_of, optional,
  fraction, exponent, hexadecimal_prefix, number_of, number_rest, number_token_of, sign_kind,
  consumes, after_first, operator_kind, short_operator, operator_token, word_token, token_at,
  token_after, next_token, identifier_start, identifier_part, ascii_hex, consumes_digit,
}

-- A result has a property, and there was enough fuel.
abbrev pub Ends {ℓ} : {A : Type ℓ} → (A → Type 0) → Result SyntaxError A → Type 0
Ends P (ok a) = P a
Ends P (err out_of_fuel) = ⊥
Ends P (err e) = Unit

pub Ends-bind {ℓ κ} :
    {A : Type ℓ} {B : Type κ} (P : A → Type 0) (Q : B → Type 0) (f : A → Result SyntaxError B)
    (m : Result SyntaxError A)
    → Ends P m
    → ((a : A) → P a → Ends Q (f a))
    → Ends Q (m >>= f)
Ends-bind P Q f (ok a) h next = next a h
Ends-bind P Q f (err out_of_fuel) h next = elim h [ ]
Ends-bind P Q f (err _) h next = tt

pub Ends-if {ℓ} :
    {A : Type ℓ} (P : A → Type 0) (b : Bool) (m n : Result SyntaxError A)
    → (b ≡ true → Ends P m)
    → (b ≡ false → Ends P n)
    → Ends P (if b then m else n)
Ends-if P true m n h k = h refl
Ends-if P false m n h k = k refl

-- Every token but the last one takes at least one character.
abbrev pub weight : TokenKind → ℕ
weight end_token = 0
weight _ = 1

-- A token and what is left take no more characters than there were.
abbrev pub Within : ℕ → Token × String → Type 0
Within n (token, rest) = weight token.kind + char_count rest ≤ n

weight-le : (k : TokenKind) → weight k ≤ 1
weight-le end_token = omega arith
weight-le _ = omega arith

skip_spaces-le : (s : String) → char_count (skip_spaces s) ≤ char_count s
unfolding skip_spaces char_count
skip_spaces-le [] = omega arith
skip_spaces-le (c ∷ s) = ground (arith, skip_spaces-le s)

span-le : (p : Char → Bool) (s : String) → char_count (span p s).1 ≤ char_count s
unfolding span char_count
span-le p [] = omega arith
span-le p (c ∷ s) = elim (Bool-cases (p c)) [
  | inl here ↦ rw here (omega (arith, span-le p s))
  | inr other ↦ rw other (omega arith)
]

optional-le : (p : Char → Bool) (s : String) → char_count (optional p s).1 ≤ char_count s
unfolding optional char_count
optional-le p [] = omega arith
optional-le p (c ∷ s) = elim (Bool-cases (p c)) [
  | inl here ↦ rw here (omega arith)
  | inr other ↦ rw other (omega arith)
]

if_both {ℓ} :
    {A : Type ℓ} (P : A → Type 0) (b : Bool) {x y : A} → P x → P y → P (if b then x else y)
if_both P true hx hy = hx
if_both P false hx hy = hy

fraction-le : (s : String) → char_count (fraction s).1 ≤ char_count s
unfolding fraction char_count
fraction-le [] = omega arith
fraction-le (c ∷ s) =
    let digits = span-le ascii_digit s in
    if_both (λ (x : String × String). char_count x.1 ≤ suc (char_count s)) (eqb (code c) 46)
      (omega (arith, digits)) (omega arith)

-- What is left, if there is something, takes no more than there was.
abbrev Leaves : ℕ → Option (String × String) → Type 0
Leaves n none = Unit
Leaves n (some (passed, rest)) = char_count rest ≤ n

exponent-Leaves : (s : String) → Leaves (char_count s) (exponent s)
unfolding exponent char_count
exponent-Leaves [] = omega arith
exponent-Leaves (c ∷ s) =
    let sign = λ (d : Char). eqb (code d) 43 || eqb (code d) 45 in
    let unsigned = optional-le sign s in
    let digits = span-le ascii_digit (optional sign s).1 in
    if_both (Leaves (suc (char_count s))) (eqb (code c) 101 || eqb (code c) 69)
      (if_both (Leaves (suc (char_count s))) ((span ascii_digit (optional sign s).1).0 == "") tt
        (omega (arith, unsigned, digits)))
      (omega arith)

hexadecimal_prefix-Leaves :
    (c : Char) (s : String) → Leaves (char_count s) (hexadecimal_prefix (c ∷ s))
unfolding hexadecimal_prefix char_count
hexadecimal_prefix-Leaves c [] = tt
hexadecimal_prefix-Leaves c (d ∷ s) =
    if_both (Leaves (suc (char_count s))) (eqb (code c) 48 && (eqb (code d) 120 || eqb (code d) 88))
      (omega arith) tt

pushed-Leaves :
    (n : ℕ) (c : Char) (o : Option (String × String))
    → Leaves n o
    → Leaves n (elim o as (λ _. Option (String × String)) [
      | none ↦ none
      | some (content, rest) ↦ some (c ∷ content, rest)
    ])
pushed-Leaves n c none h = tt
pushed-Leaves n c (some (content, rest)) h = h

Leaves-mono : (m n : ℕ) (o : Option (String × String)) → m ≤ n → Leaves m o → Leaves n o
Leaves-mono m n none h k = tt
Leaves-mono m n (some (passed, rest)) h k = omega (arith, h, k)

string_rest-Leaves : (s : String) → Leaves (char_count s) (string_rest s)
unfolding string_rest char_count
string_rest-Leaves [] = tt
string_rest-Leaves (c ∷ []) = if_both (Leaves 1) (eqb (code c) 39) (omega arith) tt
string_rest-Leaves (c ∷ d ∷ s) =
    let doubled = string_rest-Leaves s in
    let next = string_rest-Leaves (d ∷ s) in
    let n = suc (suc (char_count s)) in
    if_both (Leaves n) (eqb (code c) 39)
      (if_both (Leaves n) (eqb (code d) 39)
        (pushed-Leaves n c (string_rest s)
          (Leaves-mono (char_count s) n (string_rest s) (omega arith) doubled))
        (omega arith))
      (pushed-Leaves n c (string_rest (d ∷ s))
        (Leaves-mono (suc (char_count s)) n (string_rest (d ∷ s)) (omega arith) next))

string_of-Within :
    (n : ℕ) (o : Option (String × String)) → Leaves n o → Ends (Within (suc n)) (string_of o)
unfolding string_of
string_of-Within n none h = tt
string_of-Within n (some (content, rest)) h = omega (arith, h)

after_first-le : (s : String) → char_count (after_first s) ≤ char_count s
unfolding after_first char_count
after_first-le [] = omega arith
after_first-le (c ∷ s) = omega arith

longer : (c : Char) (s : String) → char_count s ≤ char_count (c ∷ s)
unfolding char_count
longer c s = omega arith

Ends-mono : (m n : ℕ) (l : Lexed) → m ≤ n → Ends (Within m) l → Ends (Within n) l
Ends-mono m n (ok x) h k = omega (arith, h, k)
Ends-mono m n (err out_of_fuel) h k = k
Ends-mono m n (err _) h k = tt

module _ (r : Runtime) where
  number_of-Within :
      (n : ℕ) (read : String) (point : String × String) (o : Option (String × String))
      → Leaves n o
      → Ends (Within (suc n)) (number_of r read point o)
  unfolding number_of
  number_of-Within n read point none h = tt
  number_of-Within n read point (some (power, rest)) h =
      Ends-if (Within (suc n)) (is_none (r.parse_float (read ⧺ (point.0 ⧺ power)))) _ _ (λ e. tt)
        (λ e. omega (arith, h))

  number_rest-Within :
      (n : ℕ) (sign unsigned : String) (o : Option (String × String))
      → char_count (span ascii_digit unsigned).1 ≤ n
      → Leaves n o
      → Ends (Within (suc n)) (number_rest r sign unsigned o)
  unfolding number_rest
  number_rest-Within n sign unsigned none h k =
      let point = fraction-le (span ascii_digit unsigned).1 in
      let rest = (fraction (span ascii_digit unsigned).1).1 in
      number_of-Within n _ (fraction (span ascii_digit unsigned).1) (exponent rest) (
        Leaves-mono (char_count rest) n (exponent rest) (omega (arith, point, h))
          (exponent-Leaves rest))
  number_rest-Within n sign unsigned (some (prefix, s)) h k =
      let digits = span-le ascii_hex s in
      Ends-if (Within (suc n)) ((span ascii_hex s).0 == "") _ _ (λ e. tt)
        (λ e. omega (arith, k, digits))

  -- A number that begins with a digit.
  digit_first :
      (c : Char) (s : String)
      → ascii_digit c ≡ true
      → Ends (Within (suc (char_count s))) (number_rest r "" (c ∷ s) (hexadecimal_prefix (c ∷ s)))
  unfolding span
  digit_first c s h =
      number_rest-Within (char_count s) "" (c ∷ s) (hexadecimal_prefix (c ∷ s))
        (rw h (span-le ascii_digit s)) (hexadecimal_prefix-Leaves c s)

  -- A number after its sign.
  sign_first :
      (c : Char) (s : String)
      → Ends (Within (suc (char_count s))) (number_rest r (c ∷ []) s (hexadecimal_prefix s))
  unfolding hexadecimal_prefix char_count
  sign_first c [] = number_rest-Within 0 (c ∷ []) [] none (span-le ascii_digit []) tt
  sign_first c (d ∷ s) =
      number_rest-Within (char_count (d ∷ s)) (c ∷ []) (d ∷ s) (hexadecimal_prefix (d ∷ s))
        (span-le ascii_digit (d ∷ s))
        (Leaves-mono (char_count s) (char_count (d ∷ s)) (hexadecimal_prefix (d ∷ s)) (longer d s)
          (hexadecimal_prefix-Leaves d s))

  number_token_of-Within :
      (c : Char) (s : String)
      → (ascii_digit c || (eqb (code c) 45 && consumes_digit s)) ≡ true
      → Ends (Within (suc (char_count s))) (number_token_of r (c ∷ s))
  unfolding number_token_of optional
  number_token_of-Within c s h = elim (Bool-cases (eqb (code c) 45)) [
    | inl minus ↦ rw minus (sign_first c s)
    | inr other ↦ rw other (digit_first c s (ground (arith, h, other)))
  ]

  word_token-Within :
      (c : Char) (s : String) → Ends (Within (suc (char_count s))) (word_token r c s)
  unfolding word_token
  word_token-Within c s =
      let word = span-le identifier_part s in
      let n = suc (char_count s) in
      Ends-if (Within n) (identifier_start c) _ _ (λ e. omega (arith, word))
        (λ e.
          Ends-if (Within n) (ascii_digit c || (eqb (code c) 45 && consumes_digit s)) _ _
            (λ d. number_token_of-Within c s d) (λ d. tt))

  operator_token-Within :
      (c : Char) (s : String) (o : ℕ × TokenKind × Option TokenKind)
      → Ends (Within (suc (char_count s))) (operator_token c s o)
  unfolding operator_token short_operator
  operator_token-Within c s (second, long, none) =
      let one = weight-le long in
      let rest = after_first-le s in
      Ends-if (Within (suc (char_count s))) (consumes second s) _ _ (λ e. omega (arith, one, rest))
        (λ e. tt)
  operator_token-Within c s (second, long, some short) =
      let one = weight-le long in
      let other = weight-le short in
      let rest = after_first-le s in
      Ends-if (Within (suc (char_count s))) (consumes second s) _ _ (λ e. omega (arith, one, rest))
        (λ e. omega (arith, other))

  sign_or :
      (c : Char) (s : String) (k : Option TokenKind) (m : Lexed)
      → Ends (Within (suc (char_count s))) m
      → Ends (Within (suc (char_count s))) (elim k as (λ _. Lexed) [
        | some kind ↦ ok (record { kind = kind; text = c ∷ [] }, s)
        | none ↦ m
      ])
  sign_or c s none m h = h
  sign_or c s (some kind) m h = let one = weight-le kind in omega (arith, one)

  operator_or :
      (c : Char) (s : String) (o : Option (ℕ × TokenKind × Option TokenKind))
      → Ends (Within (suc (char_count s))) (elim o as (λ _. Lexed) [
        | some operator ↦ operator_token c s operator
        | none ↦ word_token r c s
      ])
  operator_or c s none = word_token-Within c s
  operator_or c s (some operator) = operator_token-Within c s operator

  token_at-Within : (c : Char) (s : String) → Ends (Within (suc (char_count s))) (token_at r c s)
  unfolding token_at
  token_at-Within c s = sign_or c s (sign_kind (code c)) _ (
      if_both (Ends (Within (suc (char_count s)))) (eqb (code c) 39)
        (string_of-Within (char_count s) (string_rest s) (string_rest-Leaves s))
        (operator_or c s (operator_kind (code c))))

  token_after-Within : (s : String) → Ends (Within (char_count s)) (token_after r s)
  unfolding token_after char_count
  token_after-Within [] = omega arith
  token_after-Within (c ∷ s) = token_at-Within c s

  pub next_token-Within : (s : String) → Ends (Within (char_count s)) (next_token r s)
  unfolding next_token
  next_token-Within s =
      Ends-mono (char_count (skip_spaces s)) (char_count s) (token_after r (skip_spaces s))
        (skip_spaces-le s) (token_after-Within (skip_spaces s))
