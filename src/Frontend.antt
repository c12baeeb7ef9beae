-- ===== src/Frontend.antt =====
-- src/frontend: tokens and the lexer.
pub mod Lexicals
pub mod Lexing
