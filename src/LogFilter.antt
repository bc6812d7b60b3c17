-- ===== src/LogFilter.antt =====
-- internal/logfilter: the log-line filter, from its source text to the decision on a line.
pub mod Result
pub mod Ast
pub mod Lexer
pub mod Parser
pub mod Deps
pub mod Severity
pub mod Predicate
pub mod Plan
mod Tests
