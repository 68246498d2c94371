-- ===== src/Types.antt =====
-- include/snuk/parser/snuk_type.h and src/parser/snuk_type.c: the types of annotations. The darrays
-- of a type are lists; a member of an interface is a variable with a name and a type, whose value is
-- left out, since the comparison does not read it.
pub mod Equal
mod Tests
use snuk.Prelude.{Bool, true, false, ◌&&◌, if◌then◌else◌, ℕ, zero, suc, ◌==◌}
use snuk.Text.{StringView, equal}

mutual
  -- `no_type` is the null pointer.
  pub data SnukType : Type 0 where
    no_type : SnukType
    type_any : SnukType
    type_type : SnukType
    type_named : StringView → SnukType
    type_fn : Params → SnukType → SnukType
    type_interface : Members → SnukType

  pub data Params : Type 0 where
    no_params : Params
    param : SnukType → Params → Params

  pub data Members : Type 0 where
    no_members : Members
    member : StringView → SnukType → Members → Members

unfoldable pub params_length : Params → ℕ
params_length no_params = 0
params_length (param t ps) = suc (params_length ps)

unfoldable pub members_length : Members → ℕ
members_length no_members = 0
members_length (member n t ms) = suc (members_length ms)

-- The loops over the parameters and over the members, which run after the lengths were compared.
unfoldable mutual
  pub type_equal : SnukType → SnukType → Bool
  type_equal type_any type_any = true
  type_equal type_type type_type = true
  type_equal (type_named n) (type_named m) = equal n m
  type_equal (type_fn ps r) (type_fn qs s) =
      type_equal r s && (params_length ps == params_length qs && params_equal ps qs)
  type_equal (type_interface ms) (type_interface ns) =
      members_length ms == members_length ns && members_equal ms ns
  type_equal _ _ = false

  pub params_equal : Params → Params → Bool
  params_equal (param t ps) (param u qs) = type_equal t u && params_equal ps qs
  params_equal no_params _ = true
  params_equal _ no_params = false

  pub members_equal : Members → Members → Bool
  members_equal (member n t ms) (member m u ns) =
      equal n m && (type_equal t u && members_equal ms ns)
  members_equal no_members _ = true
  members_equal _ no_members = false
