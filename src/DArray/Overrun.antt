-- ===== src/DArray/Overrun.antt =====
-- `push` onto an array without a capacity, and `push_at` past the end.
use snuk.Prelude.{
  ℕ, ◌+◌, ◌-◌, ◌*◌, ◌<◌, ◌≡◌, refl, ap, ◌∙◌, true, false, trap, arith, leb, ltb, wild, Bool-cases,
  inl, inr,
}
use snuk.DArray.Memory.{Bytes, Allocator}
use snuk.DArray.Ops.{
  DArray, word, u64, u64_sub, block_size, resize, put, zero_fill, make_room, push, push_at,
  push_past,
}
use snuk.DArray.Elements.{IsArray, offset_small, block_size-bounded}

no_block :
    (d : DArray)
    → d.capacity ≡ 0
    → d.shift ≡ d.align
    → block_size (u64 (d.capacity * 2)) d.stride d.align d.shift ≡ 0
unfolding block_size u64
no_block d none_left aligned =
    ap (λ c. block_size (u64 (c * 2)) d.stride d.align d.shift) none_left ∙ omega (arith, aligned)

-- Doubling a capacity of 0 makes no room: pushing onto an array that was created with capacity 0, in
-- a block that was aligned for its elements already, writes behind the block.
pub push-no_capacity :
    (a : Allocator) (d : DArray) (e : Bytes)
    → IsArray d
    → d.capacity ≡ 0
    → d.shift ≡ d.align
    → 0 < d.stride
    → push a d e ≡ trap wild
unfolding push make_room resize put
push-no_capacity a d e h none_left aligned lt =
    simp (is_full, no_block d none_left aligned, over) refl
  where
    is_full : leb d.capacity d.size ≡ true
    is_full = ground arith

    over : leb (u64 (d.size * d.stride) + d.stride) 0 ≡ false
    over = ground arith

zero_fill-wild :
    (d : DArray) (index : ℕ)
    → d.block < word
    → u64 (d.size * d.stride) ≡ d.size * d.stride
    → index < d.size * d.stride
    → zero_fill d (u64 (d.size * d.stride)) (u64_sub index (u64 (d.size * d.stride))) ≡ trap wild
unfolding zero_fill u64_sub
zero_fill-wild d index bounded same lt = rw same simp (wraps, over) refl
  where
    wraps : leb (d.size * d.stride) index ≡ false
    wraps = ground arith

    over : leb (d.size * d.stride + (index + word - d.size * d.stride)) d.block ≡ false
    over = ground arith

-- Pushing past the end at an index below the number of bytes of the elements: the length of the
-- cleared gap is taken as the index less that number of bytes, which wraps around, and the clearing
-- runs over the end of the block.
pub push_at-gap :
    (a : Allocator) (d : DArray) (index : ℕ) (e : Bytes)
    → IsArray d
    → d.size < index
    → index < d.size * d.stride
    → push_at a d index e ≡ trap wild
unfolding push_at push_past resize
push_at-gap a d index e h lt gap = elim (Bool-cases (leb d.capacity (u64 (index + 1)))) [
  | inl full ↦
      simp
        (
          past,
          full,
          zero_fill-wild (resize a d (u64 (index + 1))) index
              (block_size-bounded (u64 (index + 1)) d.stride d.align d.shift) same gap,
        )
        refl
  | inr free ↦ simp (past, free, zero_fill-wild d index h.bounded same gap) refl
]
  where
    past : ltb d.size index ≡ true
    past = ground arith

    same : u64 (d.size * d.stride) ≡ d.size * d.stride
    same = offset_small d h d.size h.fits
