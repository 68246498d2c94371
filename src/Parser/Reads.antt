-- ===== src/Parser/Reads.antt =====
-- src/parser/parser.c: `snuk_parser_next_item` on the items of the grammar.
use snuk.Prelude.{ℕ, suc, ◌<◌, false, List, length, ◌≡◌, refl, arith, ◌∙◌}
use snuk.Lexer.Token
use snuk.Lexer.Token.{TokenType, Token}
use snuk.Parser.Enum.{same_type}
use snuk.Parser.Syntax.{SnukItem}
use snuk.Parser.State.{Parser, done}
use snuk.Parser.Whole.{calls_of, snuk_parser_next_item}
use snuk.Parser.Statements
use snuk.Parser.Statements.{EndsItem, Jump, Statement}
use snuk.Parser.Stream.{◌▸◌, ahead, at_stream}
use snuk.Parser.Kinds.{ends, Derives-starts}
use snuk.Parser.Pratt.{Derives-not_error}
use snuk.Parser.Variables.{item_end_lem}
use snuk.Parser.Items.{Read, Read-expr, Read-var, Read-const, Read-print}
use snuk.Parser.Flow.{jump_body, jump_end, jump_value, continue_lem}

ends-eof : (t : TokenType) → ends t ≡ false → same_type t Token.eof ≡ false
ends-eof t h = ground arith

jump-eof : (ty : TokenType) → Jump ty → same_type ty Token.eof ≡ false
unfolding same_type
jump-eof ty Statements.jump_return = refl
jump-eof ty Statements.jump_break = refl

module _ {F : Type 0} where
  Statement-Read : (ts : List (Token F)) (i : SnukItem F) → Statement ts i → Read ts i
  Statement-Read us i (Statements.statement_expr ts e d) = Read-expr ts e d
  Statement-Read us i (Statements.statement_var t ts v h a) = Read-var t ts v h a
  Statement-Read us i (Statements.statement_const t ts v h a) = Read-const t ts v h a
  Statement-Read us i (Statements.statement_print t ts es h a) = Read-print t ts es h a
  Statement-Read us i (Statements.statement_continue o h) =
      λ n q prev t s lt k ok_next. continue_lem o h n q prev t s k ok_next
  Statement-Read us i (Statements.statement_jump o j) = λ n q prev t s lt k ok_next.
      jump_body o.type o j refl n q prev (ahead t s) (item_end_lem k).right
      ∙ jump_end o.type o j refl n q t s k ok_next
  Statement-Read us i (Statements.statement_jump_value o ts e j d) = λ n q prev t s lt k ok_next.
      jump_body o.type o j refl n q prev (ts ▸ ahead t s) (Derives-not_error d (ahead t s))
      ∙ jump_value o.type o j ts e refl d n q t s (omega (arith, lt)) k ok_next

  Statement-starts :
      (ts : List (Token F)) (i : SnukItem F)
      → Statement ts i
      → (s : ℕ → Token F) → same_type ((ts ▸ s) 0).type Token.eof ≡ false
  unfolding same_type
  Statement-starts us i (Statements.statement_expr ts e d) s =
      ends-eof ((ts ▸ s) 0).type (Derives-starts d s)
  Statement-starts us i (Statements.statement_var t ts v h a) s = rw h refl
  Statement-starts us i (Statements.statement_const t ts v h a) s = rw h refl
  Statement-starts us i (Statements.statement_print t ts es h a) s = rw h refl
  Statement-starts us i (Statements.statement_continue o h) s = rw h refl
  Statement-starts us i (Statements.statement_jump o j) s = jump-eof o.type j
  Statement-starts us i (Statements.statement_jump_value o ts e j d) s = jump-eof o.type j

  -- Where the tokens are an item of the grammar (an expression, a declaration, return, break,
  -- continue or print), a token behind them ends it, the next one is no error, and no error is
  -- pending, a call of snuk_parser_next_item takes these tokens, raises no error, and gives that
  -- item, when it has more than three rounds more than there are tokens.
  pub next_item_lem :
      (ts : List (Token F)) (i : SnukItem F)
      → Statement ts i
      → (n : ℕ) (q : Parser F) (prev t : Token F) (s : ℕ → Token F) → suc (length ts) < n
      → EndsItem t.type
      → same_type (s 0).type Token.error ≡ false
      → q.panic_mode ≡ false
      → snuk_parser_next_item (suc (suc n)) (at_stream q prev (ts ▸ ahead t s))
        ≡ done i (at_stream q t s)
  unfolding snuk_parser_next_item calls_of
  next_item_lem ts i d n q prev t s lt k ok_next calm =
      rw
        (Statement-starts ts i d (ahead t s), Statement-Read ts i d n q prev t s lt k ok_next, calm)
        refl
