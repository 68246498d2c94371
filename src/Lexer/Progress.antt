-- ===== src/Lexer/Progress.antt =====
-- How far a call of the lexer moves on.
mod Number
mod Piece
mod Operator
pub mod Whole
pub mod Finish
