-- ===== src/Lib.antt =====
-- Snuk, an interpreted scripting language written in C: parts of its implementation, and what makes
-- them correct.
--
-- A program text goes through the lexer (src/lexer.c), whose tokens the parser (src/parser) turns into a
-- syntax tree, which the interpreter (src/interpreter) walks. All of them keep their sequences in dynamic
-- arrays (src/darray.c), their texts in string views (include/snuk/string_view.h) and take memory from
-- src/memory.c; values of the interpreter share scopes through reference counters
-- (include/snuk/refcount.h).
--
-- The modules, and the code they are about:
--   Prelude       shared names, Boolean tests on the native numbers, lists, signed integers, and the
--                 outcomes of C code: `ok`, or `trap` with a fault. A fault is a failed SNUK_ASSERT of a
--                 debug build, or `wild`: memory outside of an object, or arithmetic that C leaves
--                 undefined.
--   Chars, Text   include/snuk/snuk_string.h and include/snuk/string_view.h. A pointer into a string is
--                 the list of the bytes up to its terminator; a view is such a list and a length.
--   Lexer         src/lexer.c and include/snuk/lexer.h. `Token` has the types and tokens, `Depth` the
--                 open parentheses and brackets of each brace, `Cursor` the state `SnukLexer` and the
--                 steps that move it, `Words`, `Numbers`, `Comments` and `Punctuation` the scanners,
--                 `Next` is `snuk_lexer_next_token`, and `Names` the names of token types. `Run` calls
--                 it until the end of the text. The other modules are proofs: `Place` and `Yields` say
--                 what of the text was read, `Progress` is about how far a call moves on, `Position` about
--                 lines and columns, `Spelling` and `WordScan` about words, `Trouble` about stray
--                 closing brackets and comments that are never closed.
--   DArray        src/darray.c and include/snuk/darray.h, on bytes of memory: `Ops` has one function for
--                 each `impl_snuk_darray_` function, with the words of the header as the fields of a
--                 record; `Elements` and `Places` the list of the
--                 elements, `Push` and `Pop` what the operations do to
--                 it, `Overrun` is about calls at the edge of the
--                 block.
--   RefCount      include/snuk/refcount.h; `Steps` runs a counter against the references that its holders
--                 have.
--   Pages         src/memory.c: the page allocator, which takes pages from both ends of a range, and the
--                 loop of `snuk_alloc`.
--   Types         include/snuk/parser/snuk_type.h and `snuk_type_equal` of src/parser/snuk_type.c.
--   Parser        src/parser and include/snuk/parser. `Syntax` is the tree, `State` the state `SnukParser`
--                 with the steps of parser_common.h, `Build` the functions that make nodes, `Rules` the
--                 tables of snuk_expr.c, `Var`, `Expr`, `Block` and `Item` the functions that parse,
--                 `Whole` ties them together and has those of parser.c, `Start` begins at a text, `Names`
--                 has the names of the log. `Grammar` and `Statements` describe expressions and items
--                 without the parser. The other modules are proofs: `Stream`, `Kinds` and `Steps` on
--                 single steps, `Pratt`, `Sequences`, `Primaries` and `Complete` on expressions,
--                 `Variables`, `Prints`, `Items`, `Flow` and `Reads` on items, `Sync` on the recovery
--                 after an error, `Stuck` on loops that do not end, and `Runs` has runs on texts.
--   Scopes        include/snuk/interpreter/snuk_scope.h and snuk_env.h, and the lookup of names in
--                 interpreter_helper.h: scopes are numbers in a store. `Chain` is about lookup through
--                 the parents, `Shadow` about entering and leaving a scope, `Removal` about taking
--                 out a binding.
--   Values        include/snuk/interpreter/snuk_value.h, and `execute_unary_op` and `perform_binary_op` of
--                 src/interpreter/interpreter.c.
--
--   Interpreter   src/interpreter/interpreter.c, and from include/snuk/interpreter the state, the signals and
--                 interpreter_helper.h. `State` has `SnukInterpreter` and the steps on it, `Env` the types
--                 of values and the bindings, `Control` operators, printing, blocks, branches and loops,
--                 `Objects` functions, types and instances, `Functions` calls, `Members` members,
--                 assignments, extensions, interfaces and the members of null, `Calls` and `Whole` tie
--                 the functions together. `Laws` says what a relation between two states has to
--                 respect, and `Kept` that every evaluation keeps such a relation; `Frames` and `Typed`
--                 are two of them. `Signals` is about `break`, `continue` and `return`, `Assign` about
--                 a name behind an assignment, `Logic` about and, or and not, `Errors` about errors, `Printing` about values that
--                 cannot be printed. `Builtins` has the types bool, int and float from
--                 interpreter/builtins and the functions of src/interpreter/native.c that make them,
--                 `Conversions` is about their functions; `Init` has the interpreter in front of the first
--                 item.
--
-- Parameters, since their code is not in the repository: `strtod` and `strtoll` (Lexer/Numbers), `realloc`,
-- which keeps the bytes that have room (DArray/Memory), committing of pages and the free list (Pages), and
-- the arithmetic of double (Values), casts between numbers and `snprintf` (Interpreter/Builtins). The
-- functions in C that scripts call, those of null excepted, are a parameter of the interpreter, which
-- `function_at` gives for bool, int and float.
--
-- Fuel: `tokens` takes the number of calls, and twice the length of the text and one more are enough, since
-- each call either reads a character or is a virtual semicolon, which is not followed by another. `alloc`
-- takes the number of rounds, and one more than the pages left is enough, since each round commits one. The
-- functions of the parser call each other with one round less than they have, and a loop of theirs has as
-- many rounds as the call; four more than there are tokens are enough for an item of the grammar, since
-- every call and every round of a loop takes a token. A run that needs more is `out_of_rounds`, no result.
-- The interpreter takes fuel in the same way; scripts need not stop, so no number is enough for all, and
-- what is said of it is said of runs that are done.
--
-- Not modelled: the text of what is printed; the functions of str, and the part of the native interface that
-- the built-in types do not use; copying and freeing of values, and the counting of references to scopes;
-- the bytes in which an array keeps its alignment shift; input and output, the logger, and the
-- read-eval-print loop, which only print and read.
pub mod Prelude
pub mod Chars
pub mod Text
pub mod Lexer
pub mod DArray
pub mod Interpreter
pub mod Types
pub mod RefCount
pub mod Pages
pub mod Values
pub mod Parser
pub mod Scopes
