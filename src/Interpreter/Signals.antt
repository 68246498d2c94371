-- ===== src/Interpreter/Signals.antt =====
-- src/interpreter/interpreter.c: the signals that blocks, loops and functions pass on.
use mathlib.Core.Path.{subst}
use snuk.Prelude.{
  ℕ, zero, suc, Bool, true, false, not, Outcome, ok, trap, ◌≡◌, refl, ap, sym, ◌⊎◌, inl, inr,
  if◌then◌else◌, should_not_reach,
}
use snuk.Parser.Syntax
use snuk.Parser.Syntax.{SnukExpr, Items}
use snuk.Values
use snuk.Scopes.{Store, Frame, snuk_scope_downgrade_parent, interpreter_pop_scope}
use snuk.Interpreter.State
use snuk.Interpreter.State.{
  Ref, Value, SnukSignal, Mask, in_mask, is_none, SnukInterpreter, Run, done, fault, out_of_rounds,
  I, bind, ◌>>=◌, ◌>>◌, pure, lift, pushed, pop_scope, downgrade_if, leave_scope, with_frame,
  set_signal,
}
use snuk.Interpreter.Calls.{Calls, items_of}
use snuk.Interpreter.Control.{
  after_item, block_items, execute_block_expr, holds, loop_test, after_body, while_rounds,
  execute_while_expr, continues, returns_breaks, returns,
}
use snuk.Interpreter.Laws.{Post}

-- No signal, or one of the mask.
abbrev pub Passes : Mask → SnukSignal → Type 0
Passes m g = (is_none g ≡ true) ⊎ (in_mask g m ≡ true)

module _ {F : Type 0} where
  -- A step behind which the signal is the same.
  abbrev Quiet : {A : Type 0} → I F A → Type 0
  Quiet m = (s : SnukInterpreter F) → Post (λ t. t.signal ≡ s.signal) (m s)

  after :
      {A B : Type 0} (P Q : SnukInterpreter F → Type 0) (r : Run F A) (f : A → I F B)
      → Post P r
      → ((a : A) (t : SnukInterpreter F) → P t → Post Q (f a t))
      → Post Q (bind r f)
  after P Q (done a t) f p h = h a t p
  after P Q (fault e) f p h = tt
  after P Q out_of_rounds f p h = tt

  pop_scope-Quiet : Quiet pop_scope
  unfolding pop_scope
  pop_scope-Quiet s = popped (interpreter_pop_scope s.store s.frame)
    where
      popped :
          (o : Outcome Frame)
          → Post
              (λ t. t.signal ≡ s.signal)
              (elim o [ ok f ↦ done tt (with_frame f s) | trap e ↦ fault e ])
      popped (ok f) = refl
      popped (trap e) = tt

  downgrade_if-Quiet : (b : Bool) (h : ℕ) → Quiet (downgrade_if b h)
  unfolding downgrade_if
  downgrade_if-Quiet false h s = refl
  downgrade_if-Quiet true h s = lowered (snuk_scope_downgrade_parent h s.store)
    where
      lowered :
          (o : Outcome (Store (Value F)))
          → Post
              (λ t. t.signal ≡ s.signal)
              (elim o [ ok st ↦ done tt (record s { store = st }) | trap e ↦ fault e ])
      lowered (ok st) = refl
      lowered (trap e) = tt

  leave_scope-Quiet : (weak : Bool) → Quiet (leave_scope weak)
  unfolding leave_scope
  leave_scope-Quiet weak s =
      after (λ t. t.signal ≡ s.signal) _ (pop_scope s) (λ _. downgrade_if weak s.frame.current)
        (pop_scope-Quiet s)
        λ _ t p.
          subst (λ g. Post (λ u. u.signal ≡ g) (downgrade_if weak s.frame.current t)) p
            (downgrade_if-Quiet weak s.frame.current t)

  -- A value with the state that a block ends in.
  leave-Passes :
      (m : Mask) (weak : Bool) (v : Value F) (s : SnukInterpreter F)
      → Passes m s.signal
      → Post (λ t. Passes m t.signal) ((leave_scope weak >> pure v) s)
  leave-Passes m weak v s p =
      after (λ t. t.signal ≡ s.signal) (λ t. Passes m t.signal) (leave_scope weak s) (λ _. pure v)
        (leave_scope-Quiet weak s) (λ _ t e. subst (Passes m) (sym e) p)

module _ {F : Type 0} (c : Calls F) where
  after_item-Passes :
      (capture propagate : Mask) (again : I F (Value F)) (v : Value F) (s : SnukInterpreter F)
      → (is_none s.signal ≡ true → Post (λ t. Passes propagate t.signal) (again s))
      → Post (λ t. Passes propagate t.signal) (after_item capture propagate again v s.signal s)
  unfolding after_item
  after_item-Passes capture propagate again v s h =
      decided (is_none s.signal) (in_mask s.signal capture) (in_mask s.signal propagate) refl refl
    where
      decided :
          (a b p : Bool)
          → is_none s.signal ≡ a
          → in_mask s.signal propagate ≡ p
          → Post
              (λ t. Passes propagate t.signal)
              ((if a
                  then again
                  else if b
                  then (set_signal State.signal_none >> pure v)
                  else if p
                  then pure v
                  else λ s. fault should_not_reach)
                s)
      decided true b p e q = h e
      decided false true p e q = inl refl
      decided false false true e q = inr q
      decided false false false e q = tt

  block_items-Passes :
      (capture propagate : Mask) (is : Items F) (v : Value F) (s : SnukInterpreter F)
      → is_none s.signal ≡ true
      → Post (λ t. Passes propagate t.signal) (block_items c capture propagate is v s)
  unfolding block_items
  block_items-Passes capture propagate Syntax.no_items v s e = inl e
  block_items-Passes capture propagate (Syntax.items i is) v s e =
      after (λ t. Unit {0}) _ (c.exec_item i false s) _ (anything (c.exec_item i false s))
        λ w t p.
          after_item-Passes capture propagate (block_items c capture propagate is w) w t
            (block_items-Passes capture propagate is w t)
    where
      anything : {A : Type 0} (r : Run F A) → Post (λ t. Unit {0}) r
      anything (done a t) = tt
      anything (fault e) = tt
      anything out_of_rounds = tt

  -- A block that begins without a signal ends without one, or with one that it passes on.
  block-Post :
      (block : SnukExpr F) (capture propagate : Mask) (weak : Bool) (s : SnukInterpreter F)
      → is_none s.signal ≡ true
      → Post (λ t. Passes propagate t.signal) (execute_block_expr c block capture propagate weak s)
  unfolding execute_block_expr pushed
  block-Post block capture propagate weak s e = opened (items_of block)
    where
      opened :
          (o : Outcome (Items F))
          → Post
              (λ t. Passes propagate t.signal)
              (bind (lift o (pushed s)) λ is.
                block_items c capture propagate is Values.null >>= λ v. leave_scope weak >> pure v)
      opened (ok is) =
          after (λ t. Passes propagate t.signal) _
            (block_items c capture propagate is Values.null (pushed s)) _
            (block_items-Passes capture propagate is Values.null (pushed s) e)
            (λ v t p. leave-Passes propagate weak v t p)
      opened (trap f) = tt

  -- Whatever its items do, a block that begins with no signal pending ends with none pending, or with one
  -- that it passes on, where it comes to an end.
  pub block-Passes :
      (block : SnukExpr F) (capture propagate : Mask) (weak : Bool) (s t : SnukInterpreter F)
      (v : Value F)
      → is_none s.signal ≡ true
      → execute_block_expr c block capture propagate weak s ≡ done v t
      → Passes propagate t.signal
  block-Passes block capture propagate weak s t v e run =
      subst (Post (λ t. Passes propagate t.signal)) run
        (block-Post block capture propagate weak s e)

  -- Behind an expression that is evaluated with no signal pending, none is.
  abbrev pub Calm : SnukExpr F → Bool → Type 0
  Calm e weak =
      (s : SnukInterpreter F)
      → is_none s.signal ≡ true
      → Post (λ t. is_none t.signal ≡ true) (c.eval_expr e weak s)

  loop_test-Calm :
      (b : Bool) (cond : SnukExpr F) (weak : Bool) (s : SnukInterpreter F)
      → Calm cond weak
      → is_none s.signal ≡ true
      → Post (λ t. is_none t.signal ≡ true) (loop_test c b cond weak s)
  unfolding loop_test holds
  loop_test-Calm false cond weak s calm e = e
  loop_test-Calm true cond weak s calm e =
      after (λ t. is_none t.signal ≡ true) _ (c.eval_expr cond weak s) _ (calm s e) (λ v t p. p)

  after_body-Passes :
      (next : I F (Value F)) (v : Value F) (g : SnukSignal) (s : SnukInterpreter F)
      → s.signal ≡ g
      → (is_none s.signal ≡ true → Post (λ t. Passes returns t.signal) (next s))
      → Post (λ t. Passes returns t.signal) (after_body next v g s)
  unfolding after_body is_none in_mask
  after_body-Passes next v State.signal_return s e h = inr (ap (λ k. in_mask k returns) e)
  after_body-Passes next v State.signal_break s e h = inl refl
  after_body-Passes next v State.signal_continue s e h = tt
  after_body-Passes next v State.signal_none s e h = h (ap is_none e)

  while_rounds-Passes :
      (n : ℕ) (do_while : Bool) (cond body : SnukExpr F) (weak : Bool) (res : Value F)
      (s : SnukInterpreter F)
      → Calm cond weak
      → is_none s.signal ≡ true
      → Post (λ t. Passes returns t.signal) (while_rounds c n do_while cond body weak res s)
  unfolding while_rounds
  while_rounds-Passes zero do_while cond body weak res s calm e = tt
  while_rounds-Passes (suc n) do_while cond body weak res s calm e =
      after (λ t. is_none t.signal ≡ true) _ (loop_test c (not do_while) cond weak s) _
        (loop_test-Calm (not do_while) cond weak s calm e)
        (elim [
          | false ↦ λ t p. inl p
          | true ↦ λ t p.
              after (λ u. Passes returns_breaks u.signal) _
                (execute_block_expr c body continues returns_breaks weak t) _
                (block-Post body continues returns_breaks weak t p)
                (λ v u q. after_body-Passes _ v u.signal u refl (λ none_left.
                  after (λ x. is_none x.signal ≡ true) _ (loop_test c do_while cond weak u) _
                    (loop_test-Calm do_while cond weak u calm none_left)
                    (elim [
                      | false ↦ λ x r. inl r
                      | true ↦ λ x r. while_rounds-Passes n do_while cond body weak v x calm r
                    ])))
        ])

  -- A `while` or `do` loop that begins with no signal pending, and whose condition leaves none, ends with
  -- none pending, or with `return`, where it comes to an end.
  pub while-Passes :
      (do_while : Bool) (cond body : SnukExpr F) (weak : Bool) (s t : SnukInterpreter F)
      (v : Value F)
      → Calm cond weak
      → is_none s.signal ≡ true
      → execute_while_expr c do_while cond body weak s ≡ done v t
      → Passes returns t.signal
  unfolding execute_while_expr
  while-Passes do_while cond body weak s t v calm e run =
      subst (Post (λ t. Passes returns t.signal)) run
        (while_rounds-Passes c.rounds do_while cond body weak Values.null s calm e)
