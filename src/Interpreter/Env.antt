-- ===== src/Interpreter/Env.antt =====
-- src/interpreter/interpreter.c and include/snuk/interpreter/interpreter_helper.h: the types of values,
-- and the bindings that are read, written and created.
use snuk.Prelude.{
  ℕ, zero, suc, Bool, true, false, ◌||◌, List, [], ◌∷◌, Option, none, some, ◌==◌, Outcome, ok, trap,
  wild, codes, if◌then◌else◌,
}
use snuk.Text.{StringView, equal, equal_cstr}
use snuk.Types
use snuk.Types.{SnukType, Members, type_equal}
use snuk.Values
use snuk.Values.{SnukValue}
use snuk.Scopes.{
  SnukEnv, Store, Frame, snuk_scope_lookup, snuk_scope_add_env, snuk_env_create,
  snuk_env_assign_value, interpreter_lookup, interpreter_get_member_env, set_vars,
}
use snuk.Interpreter.State.{Ref, Value, I, ◌>>=◌, ◌>>◌, pure, ask, read, change, done}

-- The built-in types that a name can stand for.
pub data ValueType : Type 0 where
  unknown_type int_type float_type bool_type str_type : ValueType

unfoldable pub get_value_type : StringView → ValueType
unfolding equal_cstr
get_value_type name =
    if equal_cstr name (codes "int")
    then int_type
    else if equal_cstr name (codes "float")
    then float_type
    else if equal_cstr name (codes "bool")
    then bool_type
    else if equal_cstr name (codes "str")
    then str_type
    else unknown_type

-- An answer that may need more rounds, or end in a fault.
abbrev pub Answer : Type 0
Answer = Option (Outcome Bool)

abbrev pub answer : Bool → Answer
answer b = some (ok b)

unfoldable pub is_type_type : SnukType → Bool
is_type_type Types.type_type = true
is_type_type _ = false

module _ {F : Type 0} where
  -- `value.type == type`, for a value that is not unknown.
  unfoldable pub has_type : Value F → ValueType → Bool
  has_type (Values.int a) int_type = true
  has_type (Values.float x) float_type = true
  has_type (Values.bool b) bool_type = true
  has_type (Values.string v) str_type = true
  has_type _ _ = false

  -- The scopes of a type or an instance.
  unfoldable pub type_value : Value F → Option (Ref F)
  type_value (Values.type r) = some r
  type_value (Values.type_inst r b) = some r
  type_value _ = none

  unfoldable pub is_type : Value F → Bool
  is_type (Values.type r) = true
  is_type _ = false

  unfoldable pub is_unknown : Value F → Bool
  is_unknown Values.unknown = true
  is_unknown _ = false

  unfoldable pub is_inst : Value F → Bool
  is_inst (Values.type_inst r b) = true
  is_inst _ = false

  unfoldable pub scopes_of : Value F → Option (ℕ × Option ℕ)
  scopes_of (Values.type r) = some (r.closure, r.type_scope)
  scopes_of (Values.type_inst r b) = some (r.closure, r.type_scope)
  scopes_of _ = none

  -- Whether a function, or a type, is spelled like the annotation.
  unfoldable pub fn_is : Value F → SnukType → Bool
  unfolding type_equal
  fn_is (Values.fn r) t = type_equal r.type t
  fn_is (Values.fn_native r) t = type_equal r.type t
  fn_is _ t = false

  unfoldable pub type_is : Value F → SnukType → Bool
  unfolding type_equal
  type_is (Values.type r) t = type_equal t r.type
  type_is _ t = false

  -- The same closure, where both are types.
  unfoldable pub same_closure : Value F → Ref F → Bool
  same_closure (Values.type r) q = r.closure == q.closure
  same_closure _ q = false

  -- The comparison with the binding that the name of an annotation has.
  unfoldable pub named_by :
      (Value F → SnukType → Answer) → Value F → SnukType → SnukEnv (Value F) → Answer
  unfolding type_equal is_type is_type_type same_closure
  named_by again v t e = elim (e.type) [
    | Types.no_type ↦ some (trap wild)
    | Types.type_interface ms ↦ again v (Types.type_interface ms)
    | _ ↦ elim v [
      | Values.type_inst r b ↦ answer (type_equal t r.type)
      | Values.type r ↦
          answer (if is_type_type e.type || is_type e.value then same_closure e.value r else false)
      | _ ↦ answer false
    ]
  ]

  -- Every member that an interface names is there, with a value of its type.
  unfoldable pub has_members :
      (Value F → SnukType → Answer) → Store (Value F) → Value F → Members → Answer
  unfolding interpreter_get_member_env scopes_of
  has_members again st v Types.no_members = answer true
  has_members again st v (Types.member n t ms) =
      elim (interpreter_get_member_env st (scopes_of v) n) [
        | none ↦ answer false
        | some e ↦ elim (again e.value t) [ some (ok true) ↦ has_members again st v ms | r ↦ r ]
      ]

  unfoldable pub interface_is :
      (Value F → SnukType → Answer) → Store (Value F) → Value F → Members → Answer
  unfolding type_equal has_members
  interface_is again st (Values.interface r) ms =
      answer (type_equal (Types.type_interface ms) r.type)
  interface_is again st (Values.type r) ms = has_members again st (Values.type r) ms
  interface_is again st (Values.type_inst r b) ms = has_members again st (Values.type_inst r b) ms
  interface_is again st _ ms = answer false

  -- Behind the test for unknown and null values.
  unfoldable pub known_is_of_type :
      (Value F → SnukType → Answer) → ℕ → Store (Value F) → Frame → Value F → SnukType → Answer
  unfolding get_value_type has_type type_value fn_is type_is interface_is named_by
      interpreter_lookup
  known_is_of_type again rounds st f v Types.no_type = some (trap wild)
  known_is_of_type again rounds st f v Types.type_any = answer true
  known_is_of_type again rounds st f v Types.type_type = answer (type_is v Types.type_type)
  known_is_of_type again rounds st f v (Types.type_named n) =
      if has_type v (get_value_type n) then answer true else elim (type_value v) [
        | none ↦ answer false
        | some r ↦ elim (interpreter_lookup rounds st f n) [
          | none ↦ none
          | some none ↦ answer false
          | some (some e) ↦ named_by again v (Types.type_named n) e
        ]
      ]
  known_is_of_type again rounds st f v (Types.type_fn ps r) = answer (fn_is v (Types.type_fn ps r))
  known_is_of_type again rounds st f v (Types.type_interface ms) = interface_is again st v ms

  unfoldable pub value_is_of_type : ℕ → Store (Value F) → Frame → Value F → SnukType → Answer
  unfolding known_is_of_type
  value_is_of_type zero st f v t = none
  value_is_of_type (suc rounds) st f Values.unknown t = answer true
  value_is_of_type (suc rounds) st f Values.null t = answer true
  value_is_of_type (suc rounds) st f v t =
      known_is_of_type (value_is_of_type rounds st f) rounds st f v t

  -- The answer for the state as it is.
  abbrev pub of_type : ℕ → Value F → SnukType → I F Bool
  of_type rounds v t s = read (value_is_of_type rounds s.store s.frame v t) s

-- The scope where a name is found, with its binding.
abbrev pub Place : Type 0 → Type 0
Place F = ℕ × SnukEnv (Value F)

module _ {F : Type 0} where
  -- What a lookup in a scope gives, with what comes where the name is not there.
  abbrev pub seek :
      ℕ → Option (SnukEnv (Value F)) → Option (Option (Place F)) → Option (Option (Place F))
  seek k (some e) other = some (some (k, e))
  seek k none other = other

  unfoldable pub find_recursive :
      ℕ → Store (Value F) → Option ℕ → StringView → Option (Option (Place F))
  unfolding snuk_scope_lookup
  find_recursive zero st h name = none
  find_recursive (suc rounds) st none name = some none
  find_recursive (suc rounds) st (some h) name =
      let rest = find_recursive rounds st (st.scopes h).parent name in
      seek h (snuk_scope_lookup st h name) rest

  -- `interpreter_lookup`, with the scope that the binding stands in.
  unfoldable pub find_from :
      ℕ → Store (Value F) → ℕ → Option ℕ → StringView → Option (Option (Place F))
  unfolding snuk_scope_lookup find_recursive
  find_from rounds st current none name = find_recursive rounds st (some current) name
  find_from rounds st current (some instance_scope) name =
      seek current (snuk_scope_lookup st current name) (
        seek instance_scope (snuk_scope_lookup st instance_scope name)
          (find_recursive rounds st (some current) name))

  unfoldable pub find : ℕ → Store (Value F) → Frame → StringView → Option (Option (Place F))
  unfolding find_from
  find rounds st f name = find_from rounds st f.current f.instance_scope name

  -- The first binding of the name in a scope gets the value.
  unfoldable pub assign_in :
      List (SnukEnv (Value F)) → StringView → Value F → List (SnukEnv (Value F))
  unfolding equal snuk_env_assign_value
  assign_in [] name v = []
  assign_in (e ∷ es) name v =
      let rest = assign_in es name v in
      if equal e.name name then snuk_env_assign_value v e ∷ es else e ∷ rest

  unfoldable pub assign_at : ℕ → StringView → Value F → Store (Value F) → Store (Value F)
  unfolding assign_in
  assign_at h name v st = set_vars h (assign_in (st.scopes h).vars name v) st

  abbrev pub located : Option (Option (Place F)) → Option (Outcome (Option (Place F)))
  located none = none
  located (some p) = some (ok p)

  unfoldable pub lookup_place : ℕ → StringView → I F (Option (Place F))
  unfolding find
  lookup_place rounds name s = read (located (find rounds s.store s.frame name)) s

  abbrev pub value_at : Option (Place F) → Value F
  value_at none = Values.unknown
  value_at (some (h, e)) = e.value

  unfoldable pub get_env : ℕ → StringView → I F (Value F)
  unfolding lookup_place
  get_env rounds name = lookup_place rounds name >>= λ p. pure (value_at p)

  unfoldable pub assign_if : ℕ → StringView → Value F → Bool → I F Bool
  unfolding assign_at
  assign_if h name v true =
      change (λ s. record s { store = assign_at h name v s.store }) >> pure true
  assign_if h name v false = pure false

  -- The binding that the name has in the scope gets the value, where its type allows it.
  unfoldable pub assign_checked : ℕ → ℕ → StringView → SnukEnv (Value F) → Value F → I F Bool
  unfolding value_is_of_type assign_if
  assign_checked rounds h name e v = of_type rounds v e.type >>= assign_if h name v

  unfoldable pub assign_place : ℕ → StringView → Value F → Option (Place F) → I F Bool
  unfolding assign_checked
  assign_place rounds name v none = pure false
  assign_place rounds name v (some (h, e)) = assign_checked rounds h name e v

  unfoldable pub set_env : ℕ → StringView → Value F → I F Bool
  unfolding lookup_place assign_place
  set_env rounds name v = lookup_place rounds name >>= assign_place rounds name v

  -- `snuk_scope_add_env`
  unfoldable pub add_to : ℕ → SnukEnv (Value F) → I F Bool
  unfolding snuk_scope_add_env
  add_to h e s = let r = snuk_scope_add_env h e s.store in done r.1 (record s { store = r.0 })

  unfoldable pub add_if : ℕ → SnukEnv (Value F) → Bool → I F Bool
  unfolding add_to
  add_if h e true = add_to h e
  add_if h e false = pure false

  unfoldable pub create_in : ℕ → ℕ → StringView → SnukType → Value F → I F Bool
  unfolding value_is_of_type add_if snuk_env_create
  create_in rounds h name t v = of_type rounds v t >>= add_if h (snuk_env_create name t v)

  -- A constant is created like a variable.
  unfoldable pub create_env : ℕ → StringView → SnukType → Value F → Bool → I F Bool
  unfolding create_in
  create_env rounds name t v is_const s = create_in rounds s.frame.current name t v s

  abbrev pub value_of : Option (SnukEnv (Value F)) → Value F
  value_of none = Values.unknown
  value_of (some e) = e.value

  unfoldable pub get_member : Value F → StringView → I F (Value F)
  unfolding interpreter_get_member_env scopes_of
  get_member v field = ask (λ s. value_of (interpreter_get_member_env s.store (scopes_of v) field))

  -- A member that only the type has gets a binding in the instance.
  unfoldable pub inherit_member : ℕ → ℕ → Value F → Option (SnukEnv (Value F)) → I F Bool
  unfolding create_in
  inherit_member rounds closure v none = pure false
  inherit_member rounds closure v (some e) = create_in rounds closure e.name e.type v

  unfoldable pub member_of_type : ℕ → ℕ → Option ℕ → StringView → Value F → I F Bool
  unfolding snuk_scope_lookup inherit_member
  member_of_type rounds closure none field v = pure false
  member_of_type rounds closure (some h) field v =
      ask (λ s. snuk_scope_lookup s.store h field) >>= inherit_member rounds closure v

  unfoldable pub own_member :
      ℕ → ℕ → Option ℕ → StringView → Value F → Option (SnukEnv (Value F)) → I F Bool
  unfolding assign_checked member_of_type
  own_member rounds closure type_scope field v (some e) = assign_checked rounds closure field e v
  own_member rounds closure type_scope field v none =
      member_of_type rounds closure type_scope field v

  unfoldable pub set_in_scopes : ℕ → Option (ℕ × Option ℕ) → StringView → Value F → I F Bool
  unfolding snuk_scope_lookup own_member
  set_in_scopes rounds none field v = pure false
  set_in_scopes rounds (some (closure, type_scope)) field v =
      ask (λ s. snuk_scope_lookup s.store closure field)
      >>= own_member rounds closure type_scope field v

  unfoldable pub set_member : ℕ → Value F → StringView → Value F → I F Bool
  unfolding set_in_scopes scopes_of
  set_member rounds inst field v = set_in_scopes rounds (scopes_of inst) field v
