-- ===== src/Sql.antt =====
-- internal/sql: the lexer of SQL text.
pub mod Lexer
pub mod Scanners
pub mod Progress
pub mod Operators
pub mod Idents
pub mod Total
pub mod Next
pub mod Tokens
pub mod Parser
pub mod Lookahead
pub mod Taken
