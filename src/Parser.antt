-- ===== src/Parser.antt =====
-- src/parser: the tokens of a text as a tree of items and expressions.
pub mod Syntax
pub mod Enum
pub mod Rules
pub mod State
pub mod Build
pub mod Calls
pub mod Var
pub mod Expr
pub mod Block
pub mod Item
pub mod Whole
pub mod Grammar
pub mod Stream
pub mod Kinds
pub mod Steps
pub mod Pratt
pub mod Sequences
pub mod Primaries
pub mod Complete
pub mod Statements
pub mod Variables
pub mod Prints
pub mod Items
pub mod Flow
pub mod Reads
pub mod Stuck
pub mod Sync
pub mod Start
pub mod Names
pub mod Tests
pub mod Unfold
mod Runs
