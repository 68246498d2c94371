-- ===== src/Interpreter/Builtins.antt =====
-- src/interpreter/builtins/builtin_bool.c, builtin_int.c and builtin_float.c, and src/interpreter/native.c:
-- the types bool, int and float with their functions in C.
use snuk.Prelude.{
  ℕ, zero, suc, ◌+◌, Bool, true, false, not, List, [], ◌∷◌, ◌++◌, Option, none, some, Outcome, ok,
  trap, ℤ, pos, length, ltb, eqb_ℤ, wild, should_not_reach, codes, if◌then◌else◌,
}
use snuk.Text.{create, create_with_len}
use snuk.Types
use snuk.Types.{SnukType}
use snuk.Values
use snuk.Values.{Floats}
use snuk.Interpreter.State
use snuk.Interpreter.State.{Value, I, fault, ◌>>=◌, ◌>>◌, pure, lift, current, push_scope}
use snuk.Interpreter.Env
use snuk.Interpreter.Env.{ValueType, get_env, create_env, is_unknown}
use snuk.Interpreter.Calls.{Calls}
use snuk.Interpreter.Objects.{leave_object, ref_to}
use snuk.Interpreter.Members.{native_create_fn, named}

-- The conversions of C between numbers, and `snprintf` of a number; a float may have no integer part in
-- 64 bits, which is undefined.
pub record Casts (F : Type 0) : Type 0 where
  pub of_int : ℤ → F
  pub truncate : F → Outcome ℤ
  pub print_int : ℤ → List ℕ
  pub print_float : F → List ℕ

pub data Conversion : Type 0 where
  to_int to_float to_bool to_str : Conversion

-- What a function is declared to give.
abbrev pub result_type : Conversion → SnukType
result_type to_int = named (codes "int")
result_type to_float = named (codes "float")
result_type to_bool = named (codes "bool")
result_type to_str = named (codes "str")

-- The types whose functions are here.
pub data Builtin : Type 0 where
  builtin_bool builtin_int builtin_float : Builtin

abbrev pub quoted : List ℕ → List ℕ
quoted s = 34 ∷ (s ++ (34 ∷ []))

module _ {F : Type 0} where
  abbrev pub string_of : List ℕ → Outcome (Value F)
  string_of s = ok (Values.string (create_with_len s (length s)))

  -- The text is printed into 25 bytes, and a 0 is written at its length.
  unfoldable pub printed : List ℕ → Outcome (Value F)
  unfolding create_with_len
  printed s = if ltb (length (quoted s)) 25 then string_of (quoted s) else trap wild

module _ {F : Type 0} (c : Casts F) (fl : Floats F) where
  -- The string for null is dropped, and one that was never set is given.
  unfoldable pub convert_bool : Conversion → Value F → Outcome (Value F)
  unfolding create_with_len
  convert_bool to_int Values.null = ok (Values.int (pos 0))
  convert_bool to_int (Values.bool b) = ok (Values.int (if b then pos 1 else pos 0))
  convert_bool to_float Values.null = ok (Values.float fl.fzero)
  convert_bool to_float (Values.bool b) = ok (Values.float (c.of_int (if b then pos 1 else pos 0)))
  convert_bool to_bool Values.null = ok (Values.bool false)
  convert_bool to_bool (Values.bool b) = ok (Values.bool b)
  convert_bool to_str Values.null = trap wild
  convert_bool to_str (Values.bool b) =
      string_of (quoted (if b then codes "true" else codes "false"))
  convert_bool to v = ok Values.unknown

  unfoldable pub convert_int : Conversion → Value F → Outcome (Value F)
  unfolding printed
  convert_int to_int Values.null = ok (Values.int (pos 0))
  convert_int to_int (Values.int n) = ok (Values.int n)
  convert_int to_float Values.null = ok (Values.float fl.fzero)
  convert_int to_float (Values.int n) = ok (Values.float (c.of_int n))
  convert_int to_bool Values.null = ok (Values.bool false)
  convert_int to_bool (Values.int n) = ok (Values.bool (not (eqb_ℤ n (pos 0))))
  convert_int to_str Values.null = string_of (quoted (codes "null"))
  convert_int to_str (Values.int n) = printed (c.print_int n)
  convert_int to v = ok Values.unknown

  unfoldable pub convert_float : Conversion → Value F → Outcome (Value F)
  unfolding printed
  convert_float to_int Values.null = ok (Values.int (pos 0))
  convert_float to_int (Values.float x) = elim (c.truncate x) [
    | ok n ↦ ok (Values.int n)
    | trap e ↦ trap e
  ]
  convert_float to_float Values.null = ok (Values.float fl.fzero)
  convert_float to_float (Values.float x) = ok (Values.float x)
  convert_float to_bool Values.null = ok (Values.bool false)
  convert_float to_bool (Values.float x) = ok (Values.bool (not (fl.feq x fl.fzero)))
  convert_float to_str Values.null = string_of (quoted (codes "null"))
  convert_float to_str (Values.float x) = printed (c.print_float x)
  convert_float to v = ok Values.unknown

  unfoldable pub convert : Builtin → Conversion → Value F → Outcome (Value F)
  unfolding convert_bool convert_int convert_float
  convert builtin_bool = convert_bool
  convert builtin_int = convert_int
  convert builtin_float = convert_float

  unfoldable pub native_lookup : ℕ → List ℕ → I F (Value F)
  unfolding get_env create
  native_lookup rounds name = get_env rounds (create name)

  -- The function in C that converts the value of the instance that it is called on.
  unfoldable pub run_conversion : ℕ → Builtin → Conversion → I F (Value F)
  unfolding native_lookup convert
  run_conversion rounds t to = native_lookup rounds (codes "value") >>= λ v. lift (convert t to v)

  -- The functions have numbers in place of pointers, those of this table from 0 on.
  unfoldable pub function_at :
      ℕ → List (Builtin × Conversion) → (ℕ → I F (Value F)) → ℕ → I F (Value F)
  unfolding run_conversion
  function_at rounds [] others n = others n
  function_at rounds ((t, to) ∷ fs) others zero = run_conversion rounds t to
  function_at rounds (f ∷ fs) others (suc n) = function_at rounds fs others n

abbrev pub table : List (Builtin × Conversion)
table =
    (builtin_bool, to_int)
    ∷ (builtin_bool, to_float)
    ∷ (builtin_bool, to_bool)
    ∷ (builtin_bool, to_str)
    ∷ (builtin_int, to_int)
    ∷ (builtin_int, to_float)
    ∷ (builtin_int, to_bool)
    ∷ (builtin_int, to_str)
    ∷ (builtin_float, to_int)
    ∷ (builtin_float, to_float)
    ∷ (builtin_float, to_bool)
    ∷ (builtin_float, to_str)
    ∷ []

-- The number of the first function of a type; the others follow it.
abbrev pub first_function : Builtin → ℕ
first_function builtin_bool = 0
first_function builtin_int = 4
first_function builtin_float = 8

abbrev pub builtin_types : List (List ℕ × ValueType)
builtin_types =
    (codes "int", Env.int_type)
    ∷ (codes "float", Env.float_type)
    ∷ (codes "bool", Env.bool_type)
    ∷ (codes "str", Env.str_type)
    ∷ []

-- A member of a type that is made in C: a value, or how it is built.
pub record SnukTypeMember (F : Type 0) : Type 0 where
  pub name : List ℕ
  pub type : SnukType
  pub build_value : Option (Bool → I F (Value F))
  pub value : Value F

module _ {F : Type 0} (c : Calls F) where
  abbrev pub native_add_value : List ℕ → SnukType → Value F → Bool → I F Bool
  unfolding create create_env
  native_add_value name t v is_const = create_env c.rounds (create name) t v is_const

  unfoldable pub member_value : SnukTypeMember F → I F (Value F)
  member_value m = elim (m.build_value) [ none ↦ pure m.value | some build ↦ build true ]

  -- The members, and the rest; where one cannot be made, the new scope is not left.
  unfoldable pub type_members : List (SnukTypeMember F) → I F (Value F) → I F (Value F)
  unfolding member_value native_add_value
  type_members [] rest = rest
  type_members (m ∷ ms) rest = member_value m >>= λ v.
      native_add_value m.name m.type v false
      >>= elim [ true ↦ type_members ms rest | false ↦ pure Values.unknown ]

  unfoldable pub native_create_type : List (SnukTypeMember F) → Bool → I F (Value F)
  unfolding type_members leave_object
  native_create_type ms weak =
      push_scope
      >> type_members ms (
          current >>= λ closure.
          leave_object weak closure >> pure (Values.type (ref_to closure Types.type_type)))

  -- A member that is a function without parameters.
  unfoldable pub function_member : List ℕ → SnukType → ℕ → SnukTypeMember F
  unfolding native_create_fn
  function_member name result n = record {
    name = name;
    type = Types.type_fn Types.no_params result;
    build_value = some (native_create_fn c [] Types.no_params result (State.other n));
    value = Values.unknown;
  }

  -- The members of bool, of int and of float, which differ in their functions only.
  unfoldable pub members : Builtin → List (SnukTypeMember F)
  unfolding function_member
  members t =
      record {
        name = codes "value";
        type = Types.type_any;
        build_value = none;
        value = Values.null;
      }
      ∷ function_member (codes "to_int") (result_type to_int) (first_function t)
      ∷ function_member (codes "to_float") (result_type to_float) (first_function t + 1)
      ∷ function_member (codes "to_bool") (result_type to_bool) (first_function t + 2)
      ∷ function_member (codes "to_str") (result_type to_str) (first_function t + 3)
      ∷ []

  unfoldable pub bool_members : List (SnukTypeMember F)
  unfolding members
  bool_members = members builtin_bool

  unfoldable pub int_members : List (SnukTypeMember F)
  unfolding members
  int_members = members builtin_int

  unfoldable pub float_members : List (SnukTypeMember F)
  unfolding members
  float_members = members builtin_float

  -- The type of the strings, whose functions are not here, is made by a function that is given.
  unfoldable pub builtins_create_type : (Bool → I F (Value F)) → ValueType → Bool → I F (Value F)
  unfolding native_create_type bool_members int_members float_members
  builtins_create_type create_str Env.int_type weak = native_create_type int_members weak
  builtins_create_type create_str Env.float_type weak = native_create_type float_members weak
  builtins_create_type create_str Env.bool_type weak = native_create_type bool_members weak
  builtins_create_type create_str Env.str_type weak = create_str weak
  builtins_create_type create_str Env.unknown_type weak = λ s. fault should_not_reach

  -- Each type is made and bound to its name.
  unfoldable pub create_types : (Bool → I F (Value F)) → List (List ℕ × ValueType) → Bool → I F Bool
  unfolding is_unknown native_add_value builtins_create_type
  create_types create_str [] weak = pure true
  create_types create_str ((name, t) ∷ ts) weak = builtins_create_type create_str t weak >>= λ v.
      if is_unknown v
      then pure false
      else (native_add_value name Types.type_type v false
          >>= elim [ true ↦ create_types create_str ts weak | false ↦ pure false ])

  unfoldable pub create_builtin_types : (Bool → I F (Value F)) → Bool → I F Bool
  unfolding create_types
  create_builtin_types create_str weak = create_types create_str builtin_types weak
