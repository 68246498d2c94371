-- ===== src/Interpreter/Kept/Control.antt =====
-- src/interpreter/interpreter.c: operators, printing, blocks, branches and loops keep every relation
-- that the steps respect.
use snuk.Prelude.{ℕ, zero, suc, Bool, true, false, not, Outcome, ok, trap, if◌then◌else◌}
use snuk.Lexer.Token.{TokenType}
use snuk.Parser.Syntax
use snuk.Parser.Syntax.{SnukExpr, SnukItem, Items, Exprs}
use snuk.Values
use snuk.Values.{is_true}
use snuk.Values.Operators.{unary_op, binary_op}
use snuk.Interpreter.State
use snuk.Interpreter.State.{
  Native, Value, SnukSignal, Mask, Printed, SnukInterpreter, I, fault, is_none, in_mask, ◌>>=◌,
  ◌>>◌, pure, lift, pushed, leave_scope, push_scope, interpreter_check,
}
use snuk.Interpreter.Calls.{Calls, items_of}
use snuk.Interpreter.Control.{
  execute_unary_op, holds, is_or, is_and, with_left, execute_binary_op, can_print, print_value,
  print_exprs, execute_print_item, after_item, block_items, execute_block_expr, choose, branch,
  execute_if_expr, loop_test, after_body, while_rounds, execute_while_expr, run_update, is_there,
  for_rounds, for_loop, execute_for_expr, signal, continues, returns_breaks, nothing, all_signals,
  write,
}
use snuk.Interpreter.Laws.{
  Discipline, Holds, Inside, Inside-bind, Inside-then, Inside-check, holds_bind, holds_read,
}
use snuk.Interpreter.Kept.{leave_scope-kept}

-- The calls keep the relation.
pub record CallsKeep {F : Type 0} (d : Discipline F) (c : Calls F) : Type 0 where
  pub eval : (e : SnukExpr F) (weak : Bool) → Holds d (c.eval_expr e weak)
  pub exec : (i : SnukItem F) (weak : Bool) → Holds d (c.exec_item i weak)
  pub native : (n : Native) → Holds d (c.call_native n)

module _ {F : Type 0} (d : Discipline F) where
  pub lift-kept : {A : Type 0} (o : Outcome A) → Holds d {A = A} (lift o)
  lift-kept (ok a) s = d.rel_refl s
  lift-kept (trap e) s = tt

  pub if_kept :
      {A : Type 0} (b : Bool) (x y : I F A) → Holds d x → Holds d y → Holds d (if b then x else y)
  if_kept true x y hx hy = hx
  if_kept false x y hx hy = hy

  print_value-kept : (rounds : ℕ) (v : Value F) → Holds d (print_value rounds v)
  unfolding print_value
  print_value-kept rounds v =
      holds_bind d _ _ (holds_read d (λ s. can_print rounds s.store v)) (λ u s. d.prints s _)

  -- A region with a scope of its own.
  pub scope-kept :
      {A : Type 0} (m : I F A) (k : A → I F A)
      → Holds d m
      → ((a : A) (s : SnukInterpreter F) → Inside d s (pushed s) (k a))
      → Holds d (push_scope >> (m >>= k))
  scope-kept m k h e s =
      Inside-bind d s (pushed s) m k h (λ a. e a s) (pushed s) (d.rel_refl (pushed s))

  -- The region ends, and its value is given.
  pub left-kept :
      {A : Type 0} (weak : Bool) (a : A) (s : SnukInterpreter F)
      → Inside d s (pushed s) (leave_scope weak >> pure a)
  left-kept weak a s =
      Inside-then d s (pushed s) (leave_scope weak) (λ _. pure a) (leave_scope-kept d s weak)
        (λ _. d.rel_refl)

module _ {F : Type 0} (d : Discipline F) (c : Calls F) (ck : CallsKeep d c) where
  holds-kept : (e : SnukExpr F) (weak : Bool) → Holds d (holds c e weak)
  unfolding holds
  holds-kept e weak = holds_bind d (c.eval_expr e weak) _ (ck.eval e weak) (λ v. d.rel_refl)

  pub unary-kept :
      (op : TokenType) (e : SnukExpr F) (weak : Bool) → Holds d (execute_unary_op c op e weak)
  unfolding execute_unary_op
  unary-kept op e weak =
      holds_bind d (c.eval_expr e weak) _ (ck.eval e weak)
        (λ v. lift-kept d (unary_op c.floats op v))

  with_left-kept :
      (op : TokenType) (l : Value F) (r : SnukExpr F) (weak : Bool)
      → Holds d (with_left c op l r weak)
  unfolding with_left
  with_left-kept op l r weak =
      if_kept d (is_or op) _ _ (if_kept d (is_true c.floats l) _ _ d.rel_refl right) (
        if_kept d (is_and op) _ _ (if_kept d (is_true c.floats l) _ _ right d.rel_refl) (
          holds_bind d (c.eval_expr r weak) _ (ck.eval r weak)
            (λ v. lift-kept d (binary_op c.floats l v op))))
    where
      right : Holds d {A = Value F} (holds c r weak >>= λ b. pure (Values.bool b))
      right = holds_bind d (holds c r weak) _ (holds-kept r weak) (λ b. d.rel_refl)

  pub binary-kept :
      (op : TokenType) (l r : SnukExpr F) (weak : Bool) → Holds d (execute_binary_op c op l r weak)
  unfolding execute_binary_op
  binary-kept op l r weak =
      holds_bind d (c.eval_expr l weak) _ (ck.eval l weak) (λ v. with_left-kept op v r weak)

  print_exprs-kept : (es : Exprs F) (weak : Bool) → Holds d (print_exprs c es weak)
  unfolding print_exprs
  print_exprs-kept Syntax.no_exprs weak = d.rel_refl
  print_exprs-kept (Syntax.exprs e es) weak =
      holds_bind d (c.eval_expr e weak) _ (ck.eval e weak) λ v.
        holds_bind d (print_value c.rounds v) _ (print_value-kept d c.rounds v) λ _.
          holds_bind d (write State.blank) (λ _. print_exprs c es weak) (λ s. d.prints s _)
            λ _. print_exprs-kept es weak

  pub print-kept : (es : Exprs F) (weak : Bool) → Holds d (execute_print_item c es weak)
  unfolding execute_print_item
  print-kept es weak =
      holds_bind d (print_exprs c es weak) _ (print_exprs-kept es weak) (λ _ s. d.prints s _)

  after_item-kept :
      (capture propagate : Mask) (again : I F (Value F)) (v : Value F) (g : SnukSignal)
      → Holds d again
      → Holds d (after_item capture propagate again v g)
  unfolding after_item
  after_item-kept capture propagate again v g h = if_kept d (is_none g) _ _ h (
      if_kept d (in_mask g capture) _ _ (λ s. d.signals s State.signal_none)
        (if_kept d (in_mask g propagate) _ _ d.rel_refl (λ s. tt)))

  block_items-kept :
      (capture propagate : Mask) (is : Items F) (v : Value F)
      → Holds d (block_items c capture propagate is v)
  unfolding block_items
  block_items-kept capture propagate Syntax.no_items v = d.rel_refl
  block_items-kept capture propagate (Syntax.items i is) v =
      holds_bind d (c.exec_item i false) _ (ck.exec i false) λ w s.
        after_item-kept capture propagate (block_items c capture propagate is w) w s.signal
          (block_items-kept capture propagate is w) s

  pub block-kept :
      (block : SnukExpr F) (capture propagate : Mask) (weak : Bool)
      → Holds d (execute_block_expr c block capture propagate weak)
  unfolding execute_block_expr
  block-kept block capture propagate weak s =
      Inside-bind d s (pushed s) (lift (items_of block)) _ (lift-kept d (items_of block))
        (λ is.
          Inside-bind d s (pushed s) (block_items c capture propagate is Values.null) _
            (block_items-kept capture propagate is Values.null) (λ v. left-kept d weak v s))
        (pushed s) (d.rel_refl (pushed s))

  choose-kept :
      (cond : SnukExpr F) (weak : Bool) (x y : I F (Value F))
      → Holds d x
      → Holds d y
      → Holds d (choose c cond weak x y)
  unfolding choose
  choose-kept cond weak x y hx hy =
      holds_bind d (holds c cond weak) _ (holds-kept cond weak) (elim [ true ↦ hx | false ↦ hy ])

  branch-kept : (block : SnukExpr F) (weak : Bool) → Holds d (branch c block weak)
  unfolding branch
  branch-kept block weak = block-kept block nothing all_signals weak

  pub if-kept : (cond t e : SnukExpr F) (weak : Bool) → Holds d (execute_if_expr c cond t e weak)
  unfolding execute_if_expr
  if-kept cond t Syntax.no_expr weak =
      choose-kept cond weak (branch c t weak) _ (branch-kept t weak) d.rel_refl
  if-kept cond t (Syntax.expr_if x y z) weak =
      choose-kept cond weak (branch c t weak) _ (branch-kept t weak) (if-kept x y z weak)
  if-kept cond t e weak =
      choose-kept cond weak (branch c t weak) _ (branch-kept t weak) (branch-kept e weak)

  loop_test-kept : (b : Bool) (cond : SnukExpr F) (weak : Bool) → Holds d (loop_test c b cond weak)
  unfolding loop_test
  loop_test-kept false cond weak s = d.rel_refl s
  loop_test-kept true cond weak s = holds-kept cond weak s

  after_body-kept :
      (next : I F (Value F)) (v : Value F) (g : SnukSignal)
      → Holds d next
      → Holds d (after_body next v g)
  unfolding after_body
  after_body-kept next v State.signal_return h s = d.rel_refl s
  after_body-kept next v State.signal_break h s = d.signals s State.signal_none
  after_body-kept next v State.signal_continue h s = tt
  after_body-kept next v State.signal_none h s = h s

  -- A round of a loop behind its test.
  round-kept :
      (body : SnukExpr F) (weak : Bool) (next : Value F → I F (Value F))
      → ((v : Value F) → Holds d (next v))
      → Holds d (
          execute_block_expr c body continues returns_breaks weak >>= λ v.
          signal >>= after_body (next v) v)
  round-kept body weak next h =
      holds_bind d (execute_block_expr c body continues returns_breaks weak)
        (λ v. signal >>= after_body (next v) v) (block-kept body continues returns_breaks weak)
        (λ v s. after_body-kept (next v) v s.signal (h v) s)

  while_rounds-kept :
      (n : ℕ) (do_while : Bool) (cond body : SnukExpr F) (weak : Bool) (res : Value F)
      → Holds d (while_rounds c n do_while cond body weak res)
  unfolding while_rounds
  while_rounds-kept zero do_while cond body weak res = λ s. tt
  while_rounds-kept (suc n) do_while cond body weak res =
      holds_bind d (loop_test c (not do_while) cond weak) _
        (loop_test-kept (not do_while) cond weak)
        (elim [
          | false ↦ d.rel_refl
          | true ↦ round-kept body weak _ (λ v.
              holds_bind d (loop_test c do_while cond weak) _ (loop_test-kept do_while cond weak)
                (elim [
                  | false ↦ d.rel_refl
                  | true ↦ while_rounds-kept n do_while cond body weak v
                ]))
        ])

  pub while-kept :
      (do_while : Bool) (cond body : SnukExpr F) (weak : Bool)
      → Holds d (execute_while_expr c do_while cond body weak)
  unfolding execute_while_expr
  while-kept do_while cond body weak =
      while_rounds-kept c.rounds do_while cond body weak Values.null

  run_update-kept : (update : SnukExpr F) → Holds d (run_update c update)
  unfolding run_update
  run_update-kept update =
      if_kept d (is_there update) _ _
        (holds_bind d (c.eval_expr update false) (λ _. pure tt) (ck.eval update false)
          (λ _. d.rel_refl))
        d.rel_refl

  for_rounds-kept :
      (n : ℕ) (cond update body : SnukExpr F) (res : Value F)
      → Holds d (for_rounds c n cond update body res)
  unfolding for_rounds
  for_rounds-kept zero cond update body res = λ s. tt
  for_rounds-kept (suc n) cond update body res =
      holds_bind d (loop_test c (is_there cond) cond false) _
        (loop_test-kept (is_there cond) cond false)
        (elim [
          | false ↦ d.rel_refl
          | true ↦ round-kept body false _ (λ v.
              holds_bind d (run_update c update) _ (run_update-kept update)
                (λ _. for_rounds-kept n cond update body v))
        ])

  for_loop-kept :
      (cond update body : SnukExpr F) (weak : Bool) (s : SnukInterpreter F)
      → Inside d s (pushed s) (for_loop c cond update body weak)
  unfolding for_loop
  for_loop-kept cond update body weak s =
      Inside-bind d s (pushed s) (for_rounds c c.rounds cond update body Values.null) _
        (for_rounds-kept c.rounds cond update body Values.null) (λ v. left-kept d weak v s)

  -- The loop behind its first item.
  for_init-kept :
      (init : SnukItem F) (cond update body : SnukExpr F) (weak : Bool)
      → Holds d (
          push_scope
          >> (c.exec_item init false
              >> (signal >>= λ g.
                  interpreter_check
                    (is_none g)
                    "signal is not none"
                    (for_loop c cond update body weak))))
  for_init-kept init cond update body weak s =
      Inside-bind d s (pushed s) (c.exec_item init false) _ (ck.exec init false)
        (λ _ t.
          Inside-check d s (pushed s) (is_none t.signal) "signal is not none" _ (d.pushes s)
            (for_loop-kept cond update body weak s) t)
        (pushed s) (d.rel_refl (pushed s))

  pub for-kept :
      (init : SnukItem F) (cond update body : SnukExpr F) (weak : Bool)
      → Holds d (execute_for_expr c init cond update body weak)
  unfolding execute_for_expr
  for-kept Syntax.no_item cond update body weak s =
      for_loop-kept cond update body weak s (pushed s) (d.rel_refl (pushed s))
  for-kept init cond update body weak s = for_init-kept init cond update body weak s
