-- ===== src/Expression/Sound.antt =====
-- Expressions as the parser makes them, and the errors that such an expression can end in once it is
-- validated.
pub mod Calls
pub mod Hash
pub mod Evaluate
pub mod Program
use open_actions.Base.{ℕ, Bool, true, false, ◌≡◌, refl, ◌⊎◌, if◌then◌else◌}
use open_actions.Base.Result.{Result, ok, err, ◌>>=◌}
use open_actions.Expression.Node.{
  TokenKind, equal_token, not_equal_token, less_token, less_equal_token, greater_token,
  greater_equal_token, and_token, or_token, Node, literal, context_node, wildcard_node,
  property_node, index_node, unary_node, binary_node, call_node, Arguments, no_arguments, argument,
  EvalError, unsupported_function, unsupported_operator, misplaced_wildcard, out_of_range,
}
use open_actions.Expression.Evaluate.{is_wildcard}

-- The tokens that stand for binary operators.
abbrev pub is_operator : TokenKind → Bool
is_operator equal_token = true
is_operator not_equal_token = true
is_operator less_token = true
is_operator less_equal_token = true
is_operator greater_token = true
is_operator greater_equal_token = true
is_operator and_token = true
is_operator or_token = true
is_operator _ = false

-- A wildcard stands only for an index, and every operator is one.
abbrev mutual
  pub IsWellFormed : Node → Type 0
  IsWellFormed (literal v) = Unit
  IsWellFormed (context_node name) = Unit
  IsWellFormed wildcard_node = ⊥
  IsWellFormed (property_node target name) = IsWellFormed target
  IsWellFormed (index_node target index) =
      IsWellFormed target × ((is_wildcard index ≡ true) ⊎ IsWellFormed index)
  IsWellFormed (unary_node operand) = IsWellFormed operand
  IsWellFormed (binary_node operator left right) =
      (is_operator operator ≡ true) × IsWellFormed left × IsWellFormed right
  IsWellFormed (call_node name arguments) = AreWellFormed arguments

  pub AreWellFormed : Arguments → Type 0
  AreWellFormed no_arguments = Unit
  AreWellFormed (argument n ns) = IsWellFormed n × AreWellFormed ns

-- The errors that no valid expression ends in.
abbrev pub IsExpected : EvalError → Type 0
IsExpected (unsupported_function name) = ⊥
IsExpected unsupported_operator = ⊥
IsExpected misplaced_wildcard = ⊥
IsExpected out_of_range = ⊥
IsExpected _ = Unit

abbrev pub IsSafe {ℓ} : {A : Type ℓ} → Result EvalError A → Type 0
IsSafe (ok a) = Unit
IsSafe (err e) = IsExpected e

pub IsSafe-bind {ℓ κ} :
    {A : Type ℓ} {B : Type κ} (f : A → Result EvalError B) (m : Result EvalError A)
    → IsSafe m
    → ((a : A) → m ≡ ok a → IsSafe (f a))
    → IsSafe (m >>= f)
IsSafe-bind f (ok a) h next = next a refl
IsSafe-bind f (err e) h next = h

pub IsSafe-if {ℓ} :
    {A : Type ℓ} (b : Bool) (m n : Result EvalError A)
    → IsSafe m
    → IsSafe n
    → IsSafe (if b then m else n)
IsSafe-if true m n h k = h
IsSafe-if false m n h k = k
