-- ===== src/Guard.antt =====
-- scripts/check-assert-with-consumption.py: the guard that rejects fixture assertions whose callback
-- ignores the fixture value.
pub mod Chars
pub mod Lexer
pub mod Brackets
pub mod Callback
pub mod Resolve
pub mod Scan
pub mod Zig
pub mod Tree
pub mod Python
pub mod Run
mod Examples
