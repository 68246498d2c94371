-- ===== src/Lexer/Depth.antt =====
-- src/lexer.c, `ScopeDepth`: the open parentheses and brackets of each open brace. The darray is a
-- list with the element at the index `length - 1` first; the index of an empty darray wraps around,
-- and its element is outside of the array.
use snuk.Prelude.{
  ℕ, ◌+◌, ◌-◌, Bool, true, false, ◌&&◌, List, [], ◌∷◌, ◌==◌, ltb, Outcome, ok, trap, scope_mismatch,
  wild, ◌>>=◌,
}

pub record ScopeDepth : Type 0 where
  pub paren : ℕ
  pub bracket : ℕ

abbrev pub Depths : Type 0
Depths = List ScopeDepth

unfoldable pub scope_depth_zero : Depths → Outcome Bool
scope_depth_zero [] = trap wild
scope_depth_zero (d ∷ sd) = ok (d.paren == d.bracket && d.paren == 0)

unfoldable pub scope_depth_push : Depths → Depths
scope_depth_push sd = record { paren = 0; bracket = 0 } ∷ sd

abbrev pub assert : Bool → Outcome (Unit {0})
assert true = ok tt
assert false = trap scope_mismatch

abbrev tail : Depths → Depths
tail [] = []
tail (d ∷ sd) = sd

unfoldable pub scope_depth_pop : Depths → Outcome Depths
unfolding scope_depth_zero
scope_depth_pop sd = do closed ← scope_depth_zero sd; _ ← assert closed; ok (tail sd)

unfoldable pub scope_depth_add_paren : Depths → Outcome Depths
scope_depth_add_paren [] = trap wild
scope_depth_add_paren (d ∷ sd) = ok (record d { paren = d.paren + 1 } ∷ sd)

unfoldable pub scope_depth_remove_paren : Depths → Outcome Depths
scope_depth_remove_paren [] = trap wild
scope_depth_remove_paren (d ∷ sd) = do
  _ ← assert (ltb 0 d.paren)
  ok (record d { paren = d.paren - 1 } ∷ sd)

unfoldable pub scope_depth_add_bracket : Depths → Outcome Depths
scope_depth_add_bracket [] = trap wild
scope_depth_add_bracket (d ∷ sd) = ok (record d { bracket = d.bracket + 1 } ∷ sd)

unfoldable pub scope_depth_remove_bracket : Depths → Outcome Depths
scope_depth_remove_bracket [] = trap wild
scope_depth_remove_bracket (d ∷ sd) = do
  _ ← assert (ltb 0 d.bracket)
  ok (record d { bracket = d.bracket - 1 } ∷ sd)
