-- ===== src/Interpreter/Kept/Members.antt =====
-- src/interpreter/interpreter.c: members, assignments and extensions keep every relation that the steps
-- respect.
use snuk.Prelude.{Bool, true, false, [], Option, none, some, wild, codes, to_word}
use snuk.Text.{StringView}
use snuk.Types
use snuk.Types.{SnukType}
use snuk.Lexer.Token.{TokenType}
use snuk.Parser.Syntax
use snuk.Parser.Syntax.{SnukExpr, Items}
use snuk.Values
use snuk.Interpreter.State.{Native, Value, ◌>>=◌, lift, fault, pushed, with_current}
use snuk.Interpreter.Env.{create_env, get_member, set_env, set_member}
use snuk.Interpreter.Calls.{Calls, name_of}
use snuk.Interpreter.Objects.{ref_to, leave_object, value_str}
use snuk.Interpreter.Members.{
  native_create_fn, native_params, create_null_member, null_entry, named, null_member, found_member,
  box, boxed_member, member_of, execute_member_get, assign_to, execute_assign_expr, compound_op,
  execute_compound_binary_op, extend_type, execute_extend, execute_interface,
}
use snuk.Interpreter.Laws.{Discipline, Holds, Inside-then, holds_bind, holds_check, holds_error}
use snuk.Interpreter.Kept.{create_env-kept, set_env-kept, set_member-kept}
use snuk.Interpreter.Kept.Control.{CallsKeep, lift-kept}
use snuk.Interpreter.Kept.Objects.{member_items-kept, leave_object-kept, inst-kept}

module _ {F : Type 0} (d : Discipline F) (c : Calls F) (ck : CallsKeep d c) where
  -- A function in C without parameters.
  native_fn-kept :
      (t : SnukType) (n : Native) (weak : Bool)
      → Holds d (native_create_fn c [] Types.no_params t n weak)
  unfolding native_create_fn native_params
  native_fn-kept t n weak s =
      let h = (pushed s).frame.current in
      Inside-then d s (pushed s) (leave_object weak h) _ (leave_object-kept d c ck s weak h)
        (λ _. d.rel_refl) (pushed s) (d.rel_refl (pushed s))

  create_null_member-kept :
      (o : Option (SnukType × Native)) (weak : Bool) → Holds d (create_null_member c o weak)
  unfolding create_null_member
  create_null_member-kept none weak s = d.rel_refl s
  create_null_member-kept (some (t, n)) weak s = native_fn-kept t n weak s

  null_member-kept : (field : StringView) (weak : Bool) → Holds d (null_member c field weak)
  unfolding null_member
  null_member-kept field weak s = create_null_member-kept (null_entry field) weak s

  found_member-kept : (inst v : Value F) → Holds d (found_member inst v)
  unfolding found_member
  found_member-kept inst Values.unknown s = holds_error d _ s
  found_member-kept inst _ s = d.rel_refl s

  got_member-kept :
      (inst : Value F) (field : StringView) → Holds d (get_member inst field >>= found_member inst)
  unfolding get_member
  got_member-kept inst field s = found_member-kept inst _ s

  box-kept : (t : SnukType) (e : SnukExpr F) (weak : Bool) → Holds d (box c t e weak)
  unfolding box
  box-kept t e weak s =
      inst-kept d c ck t (record { str = []; len = 0 })
        (Syntax.exprs (Syntax.expr_assign (Syntax.expr_identifier value_str) e) Syntax.no_exprs)
        weak s

  boxed_member-kept :
      (t : SnukType) (e : SnukExpr F) (field : StringView) (weak : Bool)
      → Holds d (boxed_member c t e field weak)
  unfolding boxed_member
  boxed_member-kept t e field weak =
      holds_bind d (box c t e weak) _ (box-kept t e weak) (λ inst. got_member-kept inst field)

  member_of-kept :
      (field : StringView) (weak : Bool) (v : Value F) → Holds d (member_of c field weak v)
  unfolding member_of
  member_of-kept field weak (Values.type r) s = got_member-kept (Values.type r) field s
  member_of-kept field weak (Values.type_inst r b) s =
      got_member-kept (Values.type_inst r b) field s
  member_of-kept field weak Values.null s =
      holds_bind d (null_member c field true) (found_member Values.null)
        (null_member-kept field true) (found_member-kept Values.null) s
  member_of-kept field weak (Values.int a) s =
      boxed_member-kept (named (codes "int")) (Syntax.expr_int (to_word a)) field weak s
  member_of-kept field weak (Values.float x) s =
      boxed_member-kept (named (codes "float")) (Syntax.expr_float x) field weak s
  member_of-kept field weak (Values.bool b) s =
      boxed_member-kept (named (codes "bool")) (Syntax.expr_bool b) field weak s
  member_of-kept field weak (Values.string v) s =
      boxed_member-kept (named (codes "str")) (Syntax.expr_string v) field weak s
  member_of-kept field weak _ s = tt

  pub member-kept :
      (e field : SnukExpr F) (weak : Bool) → Holds d (execute_member_get c e field weak)
  unfolding execute_member_get
  member-kept e field weak = holds_bind d (c.eval_expr e weak) _ (ck.eval e weak) λ v.
      holds_bind d (lift (name_of field)) _ (lift-kept d (name_of field))
        (λ name. member_of-kept name weak v)

  assign_to-kept :
      (target : SnukExpr F) (v : Value F) (weak : Bool) → Holds d (assign_to c target v weak)
  unfolding assign_to
  assign_to-kept (Syntax.expr_identifier name) v weak =
      holds_bind d (set_env c.rounds name v) _ (set_env-kept d c.rounds name v)
        (λ assigned. holds_check d assigned _ _ d.rel_refl)
  assign_to-kept (Syntax.expr_member e field) v weak =
      holds_bind d (c.eval_expr e weak) _ (ck.eval e weak) λ inst.
        holds_bind d (lift (name_of field)) _ (lift-kept d (name_of field)) λ name.
          holds_bind d (set_member c.rounds inst name v) _ (set_member-kept d c.rounds inst name v)
            (λ assigned. holds_check d assigned _ _ d.rel_refl)
  assign_to-kept _ v weak = λ s. tt

  pub assign-kept :
      (target e : SnukExpr F) (weak : Bool) → Holds d (execute_assign_expr c target e weak)
  unfolding execute_assign_expr
  assign-kept target e weak =
      holds_bind d (c.eval_expr e weak) _ (ck.eval e weak) (λ v. assign_to-kept target v weak)

  pub compound-kept :
      (op : TokenType) (target e : SnukExpr F) (weak : Bool)
      → Holds d (execute_compound_binary_op c op target e weak)
  unfolding execute_compound_binary_op
  compound-kept op target e weak = assigned (compound_op op)
    where
      assigned :
          (o : Option TokenType)
          → Holds d (elim o [
            | some op ↦
                c.eval_expr (Syntax.expr_assign target (Syntax.expr_binary op target e)) weak
            | none ↦ λ s. fault wild
          ])
      assigned (some op) s = ck.eval _ weak s
      assigned none s = tt

  extend_type-kept : (members : Items F) (v : Value F) → Holds d (extend_type c members v)
  unfolding extend_type
  extend_type-kept members (Values.type r) s =
      let b = with_current r.closure s in
      member_items-kept d c ck s b (d.moves s b.frame) members _ (λ t q. d.extends s t r.closure q)
        b (d.rel_refl b)
  extend_type-kept members Values.unknown s = holds_error d _ s
  extend_type-kept members _ s = holds_error d _ s

  pub extend-kept :
      (e : SnukExpr F) (members : Items F) (weak : Bool) → Holds d (execute_extend c e members weak)
  unfolding execute_extend
  extend-kept e members weak =
      holds_bind d (c.eval_expr e weak) _ (ck.eval e weak) (extend_type-kept members)

  pub interface-kept :
      (name : StringView) (t : SnukType) (weak : Bool) → Holds d (execute_interface c name t weak)
  unfolding execute_interface
  interface-kept name t weak =
      let v = Values.interface (ref_to 0 t) in
      holds_bind d (create_env c.rounds name t v false) _
        (create_env-kept d c.rounds name t v false)
        (λ created. holds_check d created _ _ d.rel_refl)
