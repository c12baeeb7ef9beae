-- ===== src/Frontend/Lexing.antt =====
-- src/frontend/lexing.hpp and lexing.cpp: the lexer.
pub mod State
pub mod Quotes
pub mod Words
pub mod Dispatch
