-- ===== src/Interpreter/Control.antt =====
-- src/interpreter/interpreter.c: operators, printing, blocks, branches and loops.
use snuk.Prelude.{
  ℕ, zero, suc, Bool, true, false, not, List, [], ◌∷◌, ◌++◌, Option, none, some, Outcome, ok, trap,
  codes, should_not_reach, if◌then◌else◌,
}
use snuk.Text.{equal_cstr}
use snuk.Lexer.Token
use snuk.Lexer.Token.{TokenType}
use snuk.Parser.Syntax
use snuk.Parser.Syntax.{SnukExpr, SnukItem, Items, Exprs}
use snuk.Values
use snuk.Values.{SnukValue, is_true}
use snuk.Values.Operators.{unary_op, binary_op}
use snuk.Scopes.{SnukEnv, Store}
use snuk.Interpreter.State
use snuk.Interpreter.State.{
  Value, SnukSignal, Mask, in_mask, is_none, Printed, I, fault, out_of_rounds, ◌>>=◌, ◌>>◌, pure,
  ask, change, lift, read, interpreter_check, set_signal, push_scope, leave_scope,
}
use snuk.Interpreter.Calls.{Calls, items_of}

abbrev pub nothing : Mask
nothing = record { on_continue = false; on_break = false; on_return = false }

abbrev pub all_signals : Mask
all_signals = record { on_continue = true; on_break = true; on_return = true }

abbrev pub continues : Mask
continues = record { on_continue = true; on_break = false; on_return = false }

abbrev pub breaks : Mask
breaks = record { on_continue = false; on_break = true; on_return = false }

abbrev pub returns : Mask
returns = record { on_continue = false; on_break = false; on_return = true }

abbrev pub returns_breaks : Mask
returns_breaks = record { on_continue = false; on_break = true; on_return = true }

abbrev pub returns_continues : Mask
returns_continues = record { on_continue = true; on_break = false; on_return = true }

module _ {F : Type 0} where
  -- The members of an instance are printed in their order, without `self`.
  unfoldable pub can_print_members :
      (Value F → Option (Outcome (Unit {0})))
      → List (SnukEnv (Value F))
      → Option (Outcome (Unit {0}))
  unfolding equal_cstr
  can_print_members again [] = some (ok tt)
  can_print_members again (e ∷ es) =
      let rest = can_print_members again es in
      if equal_cstr e.name (codes "self")
      then rest
      else elim (again e.value) [ some (ok u) ↦ rest | r ↦ r ]

  -- What has no case of its own in `interpreter_print_value` is a fault, also inside of an instance.
  unfoldable pub can_print : ℕ → Store (Value F) → Value F → Option (Outcome (Unit {0}))
  unfolding can_print_members
  can_print zero st v = none
  can_print (suc rounds) st (Values.type_inst r b) =
      can_print_members (can_print rounds st) (st.scopes r.closure).vars
  can_print (suc rounds) st (Values.fn_native r) = some (trap should_not_reach)
  can_print (suc rounds) st (Values.interface r) = some (trap should_not_reach)
  can_print (suc rounds) st Values.error = some (trap should_not_reach)
  can_print (suc rounds) st v = some (ok tt)

  abbrev pub write : Printed F → I F (Unit {0})
  write x = change (λ s. record s { output = s.output ++ (x ∷ []) })

  unfoldable pub print_value : ℕ → Value F → I F (Unit {0})
  unfolding can_print
  print_value rounds v = (λ s. read (can_print rounds s.store v) s) >> write (State.shown v)

  abbrev pub signal : I F SnukSignal
  signal = ask (λ s. s.signal)

unfoldable pub is_or : TokenType → Bool
is_or Token.pipe_pipe = true
is_or Token.kw_or = true
is_or _ = false

unfoldable pub is_and : TokenType → Bool
is_and Token.amp_amp = true
is_and Token.kw_and = true
is_and _ = false

module _ {F : Type 0} where
  -- What a block does about the signal behind an item: it goes on, or it ends.
  unfoldable pub after_item : Mask → Mask → I F (Value F) → Value F → SnukSignal → I F (Value F)
  unfolding is_none in_mask
  after_item capture propagate again v g =
      if is_none g
      then again
      else if in_mask g capture
      then set_signal State.signal_none >> pure v
      else if in_mask g propagate
      then pure v
      else λ s. fault should_not_reach

  -- What a loop does about the signal behind its body.
  unfoldable pub after_body : I F (Value F) → Value F → SnukSignal → I F (Value F)
  after_body next v State.signal_return = pure v
  after_body next v State.signal_break = set_signal State.signal_none >> pure v
  after_body next v State.signal_continue = λ s. fault should_not_reach
  after_body next v State.signal_none = next

  -- Whether the pointer is not null.
  unfoldable pub is_there : SnukExpr F → Bool
  is_there Syntax.no_expr = false
  is_there _ = true

module _ {F : Type 0} (c : Calls F) where
  unfoldable pub execute_unary_op : TokenType → SnukExpr F → Bool → I F (Value F)
  unfolding unary_op
  execute_unary_op op e weak = c.eval_expr e weak >>= λ v. lift (unary_op c.floats op v)

  -- The truth of an expression.
  unfoldable pub holds : SnukExpr F → Bool → I F Bool
  unfolding is_true
  holds e weak = c.eval_expr e weak >>= λ v. pure (is_true c.floats v)

  -- The right operand's truth.
  abbrev pub right_truth : SnukExpr F → Bool → I F (Value F)
  right_truth r weak = holds r weak >>= λ b. pure (Values.bool b)

  -- Behind the evaluation of the left operand.
  unfoldable pub with_left : TokenType → Value F → SnukExpr F → Bool → I F (Value F)
  unfolding is_or is_and is_true holds binary_op
  with_left op left r weak =
      if is_or op
      then (if is_true c.floats left then pure (Values.bool true) else right_truth r weak)
      else if is_and op
      then (if is_true c.floats left then right_truth r weak else pure (Values.bool false))
      else (c.eval_expr r weak >>= λ right. lift (binary_op c.floats left right op))

  unfoldable pub execute_binary_op : TokenType → SnukExpr F → SnukExpr F → Bool → I F (Value F)
  unfolding with_left
  execute_binary_op op l r weak = c.eval_expr l weak >>= λ left. with_left op left r weak

  unfoldable pub print_exprs : Exprs F → Bool → I F (Unit {0})
  unfolding print_value
  print_exprs Syntax.no_exprs weak = pure tt
  print_exprs (Syntax.exprs e es) weak = c.eval_expr e weak >>= λ v.
      print_value c.rounds v >> (write State.blank >> print_exprs es weak)

  unfoldable pub execute_print_item : Exprs F → Bool → I F (Unit {0})
  unfolding print_exprs
  execute_print_item es weak = print_exprs es weak >> write State.line_end

  unfoldable pub block_items : Mask → Mask → Items F → Value F → I F (Value F)
  unfolding after_item
  block_items capture propagate Syntax.no_items v = pure v
  block_items capture propagate (Syntax.items i is) v = c.exec_item i false >>= λ w.
      signal >>= after_item capture propagate (block_items capture propagate is w) w

  unfoldable pub execute_block_expr : SnukExpr F → Mask → Mask → Bool → I F (Value F)
  unfolding block_items items_of leave_scope
  execute_block_expr block capture propagate weak =
      push_scope
      >> (lift (items_of block) >>= λ is.
          block_items capture propagate is Values.null >>= λ v. leave_scope weak >> pure v)

  -- The branch that the condition takes.
  unfoldable pub choose : SnukExpr F → Bool → I F (Value F) → I F (Value F) → I F (Value F)
  unfolding holds
  choose cond weak then_branch else_branch =
      holds cond weak >>= elim [ true ↦ then_branch | false ↦ else_branch ]

  -- A branch is a block that captures nothing.
  unfoldable pub branch : SnukExpr F → Bool → I F (Value F)
  unfolding execute_block_expr
  branch block weak = execute_block_expr block nothing all_signals weak

  unfoldable pub execute_if_expr : SnukExpr F → SnukExpr F → SnukExpr F → Bool → I F (Value F)
  unfolding choose branch
  execute_if_expr cond then_block Syntax.no_expr weak =
      choose cond weak (branch then_block weak) (pure Values.null)
  execute_if_expr cond then_block (Syntax.expr_if d t e) weak =
      choose cond weak (branch then_block weak) (execute_if_expr d t e weak)
  execute_if_expr cond then_block else_block weak =
      choose cond weak (branch then_block weak) (branch else_block weak)

  -- The condition of a loop, where there is one to test.
  unfoldable pub loop_test : Bool → SnukExpr F → Bool → I F Bool
  unfolding holds
  loop_test false cond weak = pure true
  loop_test true cond weak = holds cond weak

  unfoldable pub while_rounds : ℕ → Bool → SnukExpr F → SnukExpr F → Bool → Value F → I F (Value F)
  unfolding loop_test execute_block_expr after_body
  while_rounds zero do_while cond body weak res = λ s. out_of_rounds
  while_rounds (suc n) do_while cond body weak res = loop_test (not do_while) cond weak >>= elim [
    | false ↦ pure res
    | true ↦ execute_block_expr body continues returns_breaks weak >>= λ v.
        signal
        >>= after_body
            (loop_test do_while cond weak
              >>= elim [ false ↦ pure v | true ↦ while_rounds n do_while cond body weak v ])
            v
  ]

  unfoldable pub execute_while_expr : Bool → SnukExpr F → SnukExpr F → Bool → I F (Value F)
  unfolding while_rounds
  execute_while_expr do_while cond body weak =
      while_rounds c.rounds do_while cond body weak Values.null

  unfoldable pub run_update : SnukExpr F → I F (Unit {0})
  unfolding is_there
  run_update update = if is_there update then (c.eval_expr update false >> pure tt) else pure tt

  unfoldable pub for_rounds : ℕ → SnukExpr F → SnukExpr F → SnukExpr F → Value F → I F (Value F)
  unfolding loop_test execute_block_expr after_body run_update
  for_rounds zero cond update body res = λ s. out_of_rounds
  for_rounds (suc n) cond update body res = loop_test (is_there cond) cond false >>= elim [
    | false ↦ pure res
    | true ↦ execute_block_expr body continues returns_breaks false >>= λ v.
        signal >>= after_body (run_update update >> for_rounds n cond update body v) v
  ]

  -- The loop behind its first item, and the end of its scope.
  unfoldable pub for_loop : SnukExpr F → SnukExpr F → SnukExpr F → Bool → I F (Value F)
  unfolding for_rounds leave_scope
  for_loop cond update body weak =
      for_rounds c.rounds cond update body Values.null >>= λ v. leave_scope weak >> pure v

  unfoldable pub execute_for_expr :
      SnukItem F → SnukExpr F → SnukExpr F → SnukExpr F → Bool → I F (Value F)
  unfolding for_loop interpreter_check
  execute_for_expr Syntax.no_item cond update body weak =
      push_scope >> for_loop cond update body weak
  execute_for_expr init cond update body weak =
      push_scope
      >> (c.exec_item init false
          >> (signal >>= λ g.
              interpreter_check (is_none g) "signal is not none" (for_loop cond update body weak)))
