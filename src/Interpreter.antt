-- ===== src/Interpreter.antt =====
-- src/interpreter/interpreter.c, include/snuk/interpreter/interpreter.h, interpreter_helper.h and
-- snuk_signal.h: the interpreter that walks the syntax tree.
pub mod State
pub mod Env
pub mod Calls
pub mod Control
pub mod Objects
pub mod Functions
pub mod Members
pub mod Builtins
pub mod Init
pub mod Whole
pub mod Laws
pub mod Kept
pub mod Frames
pub mod Typed
pub mod Signals
pub mod Assign
pub mod Logic
pub mod Errors
pub mod Printing
pub mod Conversions
mod Tests
