-- ===== src/Syntax.antt =====
-- src/syntax: the trees of expressions and statements.
pub mod Trees
