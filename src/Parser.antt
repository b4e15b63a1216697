-- ===== src/Parser.antt =====
-- src/parser.c: what the event parser and the pull parser share.
pub mod Grammar
pub mod Literal
pub mod White
pub mod Escape
pub mod Strings
pub mod Number
pub mod Moved
pub mod Bounds
