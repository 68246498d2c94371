-- ===== src/Interpreter/State.antt =====
-- include/snuk/interpreter/interpreter.h, interpreter_helper.h and snuk_signal.h: the interpreter's
-- state and the steps on it. The counts of references, and with them the list `trash` of values that
-- are given back later, are left out: a reference is the number of a scope, which stays in the store.
-- Printed values are listed, without their text.
use Prim.Native.String.{String}
use snuk.Prelude.{
  ℕ, Bool, true, false, List, Option, none, some, Outcome, ok, trap, Fault, if◌then◌else◌,
}
use snuk.Types.{SnukType}
use snuk.Values
use snuk.Values.{SnukValue}
use snuk.Scopes.{
  Store, Frame, interpreter_push_scope, interpreter_pop_scope, snuk_scope_downgrade_parent,
}
use snuk.Parser.Syntax.{SnukExpr}

-- The functions in C that scripts can call: those of `null`, and others.
pub data Native : Type 0 where
  null_to_int null_to_float null_to_bool null_to_str : Native
  other : ℕ → Native

-- The members of the union in a value that is a function, a type, an instance or an interface.
pub record Ref (F : Type 0) : Type 0 where
  pub closure : ℕ
  pub type : SnukType
  pub instance_scope : Option ℕ
  pub type_scope : Option ℕ
  pub body : SnukExpr F
  pub native : Native

abbrev pub Value : Type 0 → Type 0
Value F = SnukValue F (Ref F)

pub data SnukSignal : Type 0 where
  signal_none signal_continue signal_break signal_return : SnukSignal

-- A set of signals, the bits of a mask.
pub record Mask : Type 0 where
  pub on_continue : Bool
  pub on_break : Bool
  pub on_return : Bool

-- Whether `signal & mask` is not 0.
unfoldable pub in_mask : SnukSignal → Mask → Bool
in_mask signal_none m = false
in_mask signal_continue m = m.on_continue
in_mask signal_break m = m.on_break
in_mask signal_return m = m.on_return

unfoldable pub is_none : SnukSignal → Bool
is_none signal_none = true
is_none _ = false

-- What `print` writes: the values, a blank behind each, and the end of the line.
pub data Printed (F : Type 0) : Type 0 where
  shown : Value F → Printed F
  blank : Printed F
  line_end : Printed F

pub record SnukInterpreter (F : Type 0) : Type 0 where
  pub store : Store (Value F)
  pub frame : Frame
  pub signal : SnukSignal
  pub panic_mode : Bool
  pub err_msg : String
  pub output : List (Printed F)

-- A run ends with a result and the state behind it, in a fault, or it needs more rounds than given.
pub data Run (F A : Type 0) : Type 0 where
  done : A → SnukInterpreter F → Run F A
  fault : Fault → Run F A
  out_of_rounds : Run F A

abbrev pub I : Type 0 → Type 0 → Type 0
I F A = SnukInterpreter F → Run F A

abbrev pub bind : {F A B : Type 0} → Run F A → (A → I F B) → Run F B
bind (done a s) f = f a s
bind (fault e) f = fault e
bind out_of_rounds f = out_of_rounds

module _ {F A B : Type 0} where
  infixl 1 ◌>>=◌ ◌>>◌
  abbrev pub ◌>>=◌ : I F A → (A → I F B) → I F B
  m >>= f = λ s. bind (m s) f

  abbrev pub ◌>>◌ : I F A → I F B → I F B
  m >> k = m >>= λ _. k

abbrev pub pure : {F A : Type 0} → A → I F A
pure a s = done a s

abbrev pub change : {F : Type 0} → (SnukInterpreter F → SnukInterpreter F) → I F (Unit {0})
change f s = done tt (f s)

abbrev pub ask : {F A : Type 0} → (SnukInterpreter F → A) → I F A
ask f s = done (f s) s

abbrev pub lift : {F A : Type 0} → Outcome A → I F A
lift (ok a) s = done a s
lift (trap e) s = fault e

-- What a look at the state comes to, which may need more rounds.
abbrev pub read : {F A : Type 0} → Option (Outcome A) → I F A
read none s = out_of_rounds
read (some (ok a)) s = done a s
read (some (trap e)) s = fault e

module _ {F : Type 0} where
  unfoldable pub raise_error : String → SnukInterpreter F → SnukInterpreter F
  raise_error msg s = if s.panic_mode then s else record s { panic_mode = true; err_msg = msg }

  unfoldable pub interpreter_error : String → I F (Value F)
  unfolding raise_error
  interpreter_error msg s = done Values.error (raise_error msg s)

  -- `SNUK_INTERPRETER_CHECK` in front of the rest of a function.
  unfoldable pub interpreter_check : Bool → String → I F (Value F) → I F (Value F)
  unfolding interpreter_error
  interpreter_check true msg rest = rest
  interpreter_check false msg rest = interpreter_error msg

  abbrev pub set_signal : SnukSignal → I F (Unit {0})
  set_signal g = change (λ s. record s { signal = g })

  abbrev pub with_frame : Frame → SnukInterpreter F → SnukInterpreter F
  with_frame f s = record s { frame = f }

  abbrev pub with_current : ℕ → SnukInterpreter F → SnukInterpreter F
  with_current h s = with_frame (record (s.frame) { current = h }) s

  abbrev pub with_instance : Option ℕ → SnukInterpreter F → SnukInterpreter F
  with_instance h s = with_frame (record (s.frame) { instance_scope = h }) s

  abbrev pub current : I F ℕ
  current = ask (λ s. s.frame.current)

  unfoldable pub pushed : SnukInterpreter F → SnukInterpreter F
  unfolding interpreter_push_scope
  pushed s = let r = interpreter_push_scope s.store s.frame in record s { store = r.0; frame = r.1 }

  abbrev pub push_scope : I F (Unit {0})
  push_scope = change pushed

  unfoldable pub pop_scope : I F (Unit {0})
  unfolding interpreter_pop_scope
  pop_scope s = elim (interpreter_pop_scope s.store s.frame) [
    | ok f ↦ done tt (with_frame f s)
    | trap e ↦ fault e
  ]

  -- `if (weak_ref) snuk_scope_downgrade_parent(scope)`
  unfoldable pub downgrade_if : Bool → ℕ → I F (Unit {0})
  unfolding snuk_scope_downgrade_parent
  downgrade_if false h s = done tt s
  downgrade_if true h s = elim (snuk_scope_downgrade_parent h s.store) [
    | ok st ↦ done tt (record s { store = st })
    | trap e ↦ fault e
  ]

  -- The end of a region with a scope of its own.
  unfoldable pub leave_scope : Bool → I F (Unit {0})
  unfolding pop_scope downgrade_if
  leave_scope weak_ref = current >>= λ h. pop_scope >> downgrade_if weak_ref h
