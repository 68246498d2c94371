-- ===== src/Lexer.antt =====
-- src/lexer.c and include/snuk/lexer.h: the text of a program as tokens.
pub mod Token
pub mod Depth
pub mod Cursor
pub mod Place
pub mod Words
pub mod Numbers
pub mod Comments
pub mod Punctuation
pub mod Next
pub mod Unfold
pub mod Yields
pub mod Progress
pub mod Position
pub mod Spelling
pub mod WordScan
pub mod Trouble
pub mod Run
pub mod Names
mod Tests
mod Examples
