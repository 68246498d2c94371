-- ===== src/DArray/Places.antt =====
-- Moves inside an array, and the elements in front of a place and behind it.
use snuk.Prelude.{
  ℕ, ◌+◌, ◌-◌, ◌*◌, ◌≤◌, ◌≡◌, refl, ap, ◌∙◌, sym, true, ◌++◌, ok, arith, leb, take, drop,
  take-append, drop-append,
}
use snuk.DArray.Memory.{Bytes, memmove, elements, elements-append, length-elements}
use snuk.DArray.Ops.{DArray, u64, move, with_size}
use snuk.DArray.Elements.{view, IsArray, u64-small}

-- A move inside the elements stays inside the block.
pub move_ok :
    (d : DArray) (dest src n : ℕ)
    → IsArray d
    → dest + n ≤ d.capacity * d.stride
    → src + n ≤ d.capacity * d.stride
    → move d (u64 dest) (u64 src) (u64 n) ≡ ok (record d { mem = memmove d.mem dest src n })
unfolding move
move_ok d dest src n h le le' =
    simp
      (
        u64-small dest (omega (arith, le, h.small)),
        u64-small src (omega (arith, le', h.small)),
        u64-small n (omega (arith, le, h.small)),
        in_dest,
        in_src,
      )
      refl
  where
    in_dest : leb (dest + n) d.block ≡ true
    in_dest = ground (arith, le, h.room)

    in_src : leb (src + n) d.block ≡ true
    in_src = ground (arith, le', h.room)

pub with_size-IsArray :
    (d : DArray) (m : Bytes) (k : ℕ)
    → IsArray d
    → k ≤ d.capacity
    → IsArray (with_size (record d { mem = m }) k)
with_size-IsArray d m k h le = record {
  fits = le;
  room = h.room;
  bounded = h.bounded;
  shifted = h.shifted;
  small = h.small;
}

-- The elements in front of a place and those from there on.
pub view-append :
    (d : DArray) (i : ℕ)
    → i ≤ d.size
    → view d ≡ elements d.mem d.stride 0 i ++ elements d.mem d.stride (i * d.stride) (d.size - i)
unfolding view
view-append d i le =
    ap (elements d.mem d.stride 0) (omega (arith, le))
    ∙ elements-append d.mem d.stride 0 i (d.size - i)
    ∙ ap (λ a. elements d.mem d.stride 0 i ++ elements d.mem d.stride a (d.size - i)) (omega arith)

pub take-view : (d : DArray) (i : ℕ) → i ≤ d.size → take i (view d) ≡ elements d.mem d.stride 0 i
take-view d i le =
    ap (take i) (view-append d i le)
    ∙ ap
        (λ k.
          take k
            (elements d.mem d.stride 0 i ++ elements d.mem d.stride (i * d.stride) (d.size - i)))
        (sym (length-elements d.mem d.stride 0 i))
    ∙ take-append (elements d.mem d.stride 0 i) _

pub drop-view :
    (d : DArray) (i : ℕ)
    → i ≤ d.size
    → drop i (view d) ≡ elements d.mem d.stride (i * d.stride) (d.size - i)
drop-view d i le =
    ap (drop i) (view-append d i le)
    ∙ ap
        (λ k.
          drop k
            (elements d.mem d.stride 0 i ++ elements d.mem d.stride (i * d.stride) (d.size - i)))
        (sym (length-elements d.mem d.stride 0 i))
    ∙ drop-append (elements d.mem d.stride 0 i) _
