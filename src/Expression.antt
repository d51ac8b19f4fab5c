-- ===== src/Expression.antt =====
-- The expressions of workflow files, `${{ ... }}`: internal/expression.
pub mod Texts
pub mod Value
pub mod Access
pub mod Node
pub mod Lexer
pub mod Parser
pub mod Hash
pub mod Calls
pub mod Format
pub mod Evaluate
pub mod Program
pub mod Secrecy
pub mod Sound
pub mod Template
mod Tests
