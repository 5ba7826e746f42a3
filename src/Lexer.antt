-- ===== src/Lexer.antt =====
-- src/compiler/lexer.c, src/compiler/lexer_keyword.c and include/cscript/lexer.h: text to tokens.
pub mod Kinds
pub mod Words
pub mod Sound
pub mod Letters
pub mod Keyword
pub mod Names
pub mod Scan
pub mod Next
pub mod Suffix
pub mod Literals
pub mod Gap
pub mod Spelling
pub mod Patterns
pub mod Templates
pub mod Forms
pub mod Lexed
pub mod Tiles
pub mod Regex
mod Tests
