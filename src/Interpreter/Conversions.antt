-- ===== src/Interpreter/Conversions.antt =====
-- src/interpreter/builtins/builtin_bool.c, builtin_int.c and builtin_float.c: the functions that convert
-- a value, what they are declared to give, and the truth that conditions see.
mod Tests
use mathlib.Core.Path.{subst}
use snuk.Prelude.{
  ℕ, zero, suc, Bool, true, false, List, [], ◌∷◌, Outcome, ok, trap, ◌≡◌, refl, ap, ◌∙◌, not, pos,
  eqb_ℤ, ℤ, codes, length, ltb, Bool-cases, inl, inr, if◌then◌else◌, wild,
}
use snuk.Types
use snuk.Types.{SnukType}
use snuk.Values
use snuk.Values.{Floats, is_true}
use snuk.Interpreter.State.{Value}
use snuk.Interpreter.Env.{get_value_type, has_type}
use snuk.Interpreter.Builtins.{
  convert_bool, convert_int, convert_float, Casts, Conversion, to_int, to_float, to_bool, to_str,
  Builtin, builtin_bool, builtin_int, builtin_float, result_type, printed, quoted, string_of,
  convert, run_conversion, function_at, native_lookup,
}

module _ {F : Type 0} where
  -- The values that the functions of a type convert.
  pub data Convertible : Builtin → Value F → Type 0 where
    from_null : {t : Builtin} → Convertible t Values.null
    from_bool : (b : Bool) → Convertible builtin_bool (Values.bool b)
    from_int : (n : ℤ) → Convertible builtin_int (Values.int n)
    from_float : (x : F) → Convertible builtin_float (Values.float x)

  -- The value has the built-in type of this name.
  abbrev pub has_kind : Value F → SnukType → Bool
  has_kind v (Types.type_named n) = has_type v (get_value_type n)
  has_kind v _ = false

-- All conversions, but those to a string and that of a float to an integer, which drops a fraction.
abbrev pub keeps_truth : Builtin → Conversion → Bool
keeps_truth builtin_bool to_str = false
keeps_truth builtin_int to_str = false
keeps_truth builtin_float to_str = false
keeps_truth builtin_float to_int = false
keeps_truth _ _ = true

module _ {F : Type 0} (c : Casts F) (fl : Floats F) where
  -- What a conversion gives, where it gives anything, has the type.
  abbrev Gives : Conversion → Outcome (Value F) → Type 0
  Gives to (ok w) = has_kind w (result_type to) ≡ true
  Gives to (trap e) = Unit

  printed-Gives : (s : List ℕ) → Gives to_str (printed s)
  unfolding printed get_value_type has_type
  printed-Gives s = fits (ltb (length (quoted s)) 25)
    where
      fits : (b : Bool) → Gives to_str (if b then string_of (quoted s) else trap wild)
      fits true = refl
      fits false = tt

  convert-Gives :
      (t : Builtin) (to : Conversion) (v : Value F)
      → Convertible t v
      → Gives to (convert c fl t to v)
  unfolding convert convert_bool convert_int convert_float get_value_type has_type
  convert-Gives builtin_bool to_int _ from_null = refl
  convert-Gives builtin_bool to_float _ from_null = refl
  convert-Gives builtin_bool to_bool _ from_null = refl
  convert-Gives builtin_bool to_str _ from_null = tt
  convert-Gives builtin_int to_int _ from_null = refl
  convert-Gives builtin_int to_float _ from_null = refl
  convert-Gives builtin_int to_bool _ from_null = refl
  convert-Gives builtin_int to_str _ from_null = refl
  convert-Gives builtin_float to_int _ from_null = refl
  convert-Gives builtin_float to_float _ from_null = refl
  convert-Gives builtin_float to_bool _ from_null = refl
  convert-Gives builtin_float to_str _ from_null = refl
  convert-Gives _ to_int _ (from_bool b) = refl
  convert-Gives _ to_float _ (from_bool b) = refl
  convert-Gives _ to_bool _ (from_bool b) = refl
  convert-Gives _ to_str _ (from_bool b) = refl
  convert-Gives _ to_int _ (from_int n) = refl
  convert-Gives _ to_float _ (from_int n) = refl
  convert-Gives _ to_bool _ (from_int n) = refl
  convert-Gives _ to_str _ (from_int n) = printed-Gives (c.print_int n)
  convert-Gives _ to_int _ (from_float x) = truncated (c.truncate x)
    where
      truncated :
          (r : Outcome ℤ) → Gives to_int (elim r [ ok n ↦ ok (Values.int n) | trap e ↦ trap e ])
      truncated (ok n) = refl
      truncated (trap e) = tt
  convert-Gives _ to_float _ (from_float x) = refl
  convert-Gives _ to_bool _ (from_float x) = refl
  convert-Gives _ to_str _ (from_float x) = printed-Gives (c.print_float x)

  -- A function that converts a value of its type, or null, and comes to an end, gives an integer, a float,
  -- a bool or a string, as its name and its declared type say, and so neither null nor unknown.
  pub convert-typed :
      (t : Builtin) (to : Conversion) (v w : Value F)
      → Convertible t v
      → convert c fl t to v ≡ ok w
      → has_kind w (result_type to) ≡ true
  convert-typed t to v w h e = subst (Gives to) e (convert-Gives t to v h)

module _ {F : Type 0} (c : Casts F) (fl : Floats F) where
  -- Where integers are cast to floats that are equal to 0 just where they are 0, and 0 is equal to itself,
  -- each conversion of a value of the type, or of null, but those to a string and that of a float to an
  -- integer, comes to an end with a value of the type that it is declared to give, in which a condition
  -- sees the same truth as in the value that was converted.
  pub convert-is_true :
      (t : Builtin) (to : Conversion) (v : Value F)
      → ((n : ℤ) → fl.feq (c.of_int n) fl.fzero ≡ eqb_ℤ n (pos 0))
      → fl.feq fl.fzero fl.fzero ≡ true
      → Convertible t v
      → keeps_truth t to ≡ true
      → (w : Value F) × (convert c fl t to v ≡ ok w)
        × (has_kind w (result_type to) ≡ true)
        × (is_true fl w ≡ is_true fl v)
  unfolding convert convert_bool convert_int convert_float get_value_type has_type is_true
  convert-is_true builtin_bool to_int _ cast z from_null k = (_, refl, refl, refl)
  convert-is_true builtin_bool to_float _ cast z from_null k = (_, refl, refl, ap not z)
  convert-is_true builtin_bool to_bool _ cast z from_null k = (_, refl, refl, refl)
  convert-is_true builtin_int to_int _ cast z from_null k = (_, refl, refl, refl)
  convert-is_true builtin_int to_float _ cast z from_null k = (_, refl, refl, ap not z)
  convert-is_true builtin_int to_bool _ cast z from_null k = (_, refl, refl, refl)
  convert-is_true builtin_float to_float _ cast z from_null k = (_, refl, refl, ap not z)
  convert-is_true builtin_float to_bool _ cast z from_null k = (_, refl, refl, refl)
  convert-is_true _ to_int _ cast z (from_bool true) k = (_, refl, refl, refl)
  convert-is_true _ to_int _ cast z (from_bool false) k = (_, refl, refl, refl)
  convert-is_true _ to_float _ cast z (from_bool true) k = (_, refl, refl, ap not (cast (pos 1)))
  convert-is_true _ to_float _ cast z (from_bool false) k = (_, refl, refl, ap not (cast (pos 0)))
  convert-is_true _ to_bool _ cast z (from_bool b) k = (_, refl, refl, refl)
  convert-is_true _ to_int _ cast z (from_int n) k = (_, refl, refl, refl)
  convert-is_true _ to_float _ cast z (from_int n) k = (_, refl, refl, ap not (cast n))
  convert-is_true _ to_bool _ cast z (from_int n) k = (_, refl, refl, refl)
  convert-is_true _ to_float _ cast z (from_float x) k = (_, refl, refl, refl)
  convert-is_true _ to_bool _ cast z (from_float x) k = (_, refl, refl, refl)
  convert-is_true _ _ _ cast z _ k = cc
