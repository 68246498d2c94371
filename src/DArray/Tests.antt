-- ===== src/DArray/Tests.antt =====
-- The theorems about arrays at concrete inputs.
use snuk.Prelude.{◌≡◌, ◌+◌, refl, [], ◌∷◌, ◌++◌, take, drop, some, ok, trap, wild, arith}
use snuk.DArray.Memory.{Bytes, Allocator, bytes_at}
use snuk.DArray.Ops.{DArray, push, push_at, pop_at}
use snuk.DArray.Elements.{view, IsArray, HasRoom}
use snuk.DArray.Push.{push-view, push_at-view}
use snuk.DArray.Pop.{pop_at-view}
use snuk.DArray.Overrun.{push_at-gap}

-- An allocator that leaves every byte where it is.
abbrev in_place : Allocator
in_place = record { realloc = λ old new mem. mem; realloc_keeps = λ old new mem i h g. refl }

-- Two elements of two bytes, in an array that is full.
abbrev two : DArray
two = record {
  capacity = 2;
  size = 2;
  stride = 2;
  align = 1;
  shift = 1;
  block = 4;
  mem = λ i. i + 7;
}

two-IsArray : IsArray two
two-IsArray = record {
  fits = omega arith;
  room = omega arith;
  bounded = omega arith;
  shifted = omega arith;
  small = omega arith;
}

two-HasRoom : HasRoom two
two-HasRoom = record { some_capacity = omega arith; doubled = omega arith; counted = omega arith }

abbrev no_room : DArray
no_room = record {
  capacity = 0;
  size = 0;
  stride = 2;
  align = 1;
  shift = 1;
  block = 0;
  mem = λ i. 0;
}

no_room-IsArray : IsArray no_room
no_room-IsArray = record {
  fits = omega arith;
  room = omega arith;
  bounded = omega arith;
  shifted = omega arith;
  small = omega arith;
}

abbrev byte : Bytes
byte = λ i. i + 1

push-view_example :
    (d' : DArray) × (push in_place two byte ≡ ok d')
    × IsArray d'
    × (view d' ≡ view two ++ bytes_at byte 0 2 ∷ [])
push-view_example = push-view in_place two byte two-IsArray two-HasRoom

push_at-view_example :
    (d' : DArray) × (push_at in_place two 1 byte ≡ ok d')
    × IsArray d'
    × (view d' ≡ take 1 (view two) ++ bytes_at byte 0 2 ∷ drop 1 (view two))
push_at-view_example = push_at-view in_place two 1 byte two-IsArray two-HasRoom (omega arith)

pop_at-view_example :
    (d' : DArray) × (out' : Bytes) × (pop_at two 0 (some byte) ≡ ok (d', some out'))
    × IsArray d'
    × (view d' ≡ take 0 (view two) ++ drop 1 (view two))
    × (view two ≡ take 0 (view two) ++ bytes_at out' 0 2 ∷ drop 1 (view two))
pop_at-view_example = pop_at-view two 0 byte two-IsArray (omega arith)

push_at-gap_example : push_at in_place two 3 byte ≡ trap wild
push_at-gap_example = push_at-gap in_place two 3 byte two-IsArray (omega arith) (omega arith)
