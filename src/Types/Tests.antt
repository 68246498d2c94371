-- ===== src/Types/Tests.antt =====
-- The theorem about types at a concrete pair.
use snuk.Prelude.{◌≡◌, ◌↔◌, true, codes, arith}
use snuk.Text.{create}
use snuk.Text.Equal.{create-Fits}
use snuk.Types
use snuk.Types.{SnukType, type_equal}
use snuk.Types.Equal.{Sound, spelled, type_equal-spelled}

-- `fn(int) -> any`
abbrev int_to_any : SnukType
int_to_any =
    Types.type_fn (Types.param (Types.type_named (create (codes "int"))) Types.no_params)
      Types.type_any

int_to_any-Sound : Sound int_to_any
unfolding Sound
int_to_any-Sound = ((create-Fits (codes "int"), omega arith), omega arith)

type_equal-spelled_example :
    (type_equal int_to_any int_to_any ≡ true) ↔ (spelled int_to_any ≡ spelled int_to_any)
type_equal-spelled_example =
    type_equal-spelled int_to_any int_to_any int_to_any-Sound int_to_any-Sound
