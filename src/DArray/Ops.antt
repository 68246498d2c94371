-- ===== src/DArray/Ops.antt =====
-- The operations of a dynamic array, on 64-bit words. A write outside the block that the allocator
-- gave is the fault `wild`.
use snuk.Prelude.{
  ℕ, ◌+◌, ◌-◌, ◌*◌, ◌%◌, ◌&&◌, Option, none, some, Outcome, ok, trap, ◌>>=◌, index_out_of_bound,
  wild, leb, ltb, ◌==◌, if◌then◌else◌,
}
use snuk.DArray.Memory.{Bytes, Allocator, memcpy, memmove, memset_zero}

abbrev pub word : ℕ
word = 18446744073709551616

unfoldable pub u64 : ℕ → ℕ
u64 n = n % word

-- `x - y` of two words
unfoldable pub u64_sub : ℕ → ℕ → ℕ
u64_sub x y = if leb y x then x - y else x + word - y

-- The words of the header in front of the elements, `shift` the number of bytes between the header
-- and the first element, `block` the number of bytes of the block behind the first element's address.
pub record DArray : Type 0 where
  pub capacity : ℕ
  pub size : ℕ
  pub stride : ℕ
  pub align : ℕ
  pub shift : ℕ
  pub block : ℕ
  pub mem : Bytes

abbrev pub header_size : ℕ
header_size = 8 * 5

abbrev pub default_capacity : ℕ
default_capacity = 5

abbrev pub resize_factor : ℕ
resize_factor = 2

-- `GET_ALIGNED_NEXT`: `align` is a power of two, so the mask clears the remainder.
unfoldable pub aligned_next : ℕ → ℕ → ℕ
aligned_next x align = (x + align) - (x + align) % align

-- The bytes behind the first element in a block for `capacity` elements.
unfoldable pub block_size : ℕ → ℕ → ℕ → ℕ → ℕ
block_size capacity stride align shift =
    u64 (capacity * stride + header_size + align) - (header_size + shift)

-- `ptr` is the address of the block that the allocator returned.
unfoldable pub create : ℕ → ℕ → ℕ → ℕ → DArray
create ptr capacity stride align =
    let first = ptr + header_size in
    let shift = aligned_next first align - first in
    record {
      capacity = capacity;
      size = 0;
      stride = stride;
      align = align;
      shift = shift;
      block = block_size capacity stride align shift;
      mem = λ i. 0;
    }

unfoldable pub resize : Allocator → DArray → ℕ → DArray
resize a d capacity =
    let block = block_size capacity d.stride d.align d.shift in
    record d { capacity = capacity; block = block; mem = a.realloc d.block block d.mem }

-- The copy of one element to the offset `at`.
unfoldable pub put : DArray → ℕ → Bytes → Outcome DArray
put d at e =
    if leb (at + d.stride) d.block
    then ok (record d { mem = memcpy d.mem at e d.stride })
    else trap wild

-- The elements from the offset `src` on, `n` bytes of them, moved to the offset `dest`.
unfoldable pub move : DArray → ℕ → ℕ → ℕ → Outcome DArray
move d dest src n =
    if leb (dest + n) d.block && leb (src + n) d.block
    then ok (record d { mem = memmove d.mem dest src n })
    else trap wild

unfoldable pub zero_fill : DArray → ℕ → ℕ → Outcome DArray
zero_fill d at n =
    if leb (at + n) d.block then ok (record d { mem = memset_zero d.mem at n }) else trap wild

abbrev pub with_size : DArray → ℕ → DArray
with_size d n = record d { size = n }

-- The copy of one element out of the array, `none` for a null pointer.
unfoldable pub take_out : DArray → ℕ → Option Bytes → Option Bytes
take_out d src none = none
take_out d src (some e) = some (memcpy e 0 (λ i. d.mem (src + i)) d.stride)

-- The resize that `push` and `push_at` start with when the array is full.
unfoldable pub make_room : Allocator → DArray → DArray
make_room a d = if leb d.capacity d.size then resize a d (u64 (d.capacity * resize_factor)) else d

unfoldable pub push : Allocator → DArray → Bytes → Outcome DArray
push a d e =
    let d = make_room a d in
    put d (u64 (d.size * d.stride)) e >>= λ d. ok (with_size d (u64 (d.size + 1)))

-- `push_at` past the end of the elements
unfoldable pub push_past : Allocator → DArray → ℕ → Bytes → Outcome DArray
push_past a d index e =
    let d = if leb d.capacity (u64 (index + 1)) then resize a d (u64 (index + 1)) else d in
    zero_fill d (u64 (d.size * d.stride)) (u64_sub index (u64 (d.size * d.stride))) >>= λ d.
    put d (u64 (index * d.stride)) e >>= λ d. ok (with_size d (u64 (index + 1)))

-- `push_at` at one of the elements or at their end
unfoldable pub push_within : Allocator → DArray → ℕ → Bytes → Outcome DArray
push_within a d index e =
    let d = make_room a d in
    move d (u64 (d.stride * (index + 1))) (u64 (d.stride * index))
      (u64 (d.stride * (d.size - index)))
    >>= λ d. put d (u64 (index * d.stride)) e >>= λ d. ok (with_size d (u64 (d.size + 1)))

unfoldable pub push_at : Allocator → DArray → ℕ → Bytes → Outcome DArray
push_at a d index e = if ltb d.size index then push_past a d index e else push_within a d index e

-- The second component is what the out parameter points to afterwards.
unfoldable pub pop : DArray → Option Bytes → DArray × Option Bytes
pop d e =
    if d.size == 0
    then (d, e)
    else let d = with_size d (d.size - 1) in (d, take_out d (u64 (d.size * d.stride)) e)

-- The elements behind `index`, moved one place to the front.
unfoldable pub close_gap : DArray → ℕ → Outcome DArray
close_gap d index =
    move d (u64 (index * d.stride)) (u64 ((index + 1) * d.stride))
      (u64 ((d.size - index - 1) * d.stride))
    >>= λ d. ok (with_size d (d.size - 1))

unfoldable pub pop_at : DArray → ℕ → Option Bytes → Outcome (DArray × Option Bytes)
pop_at d index e =
    if ltb index d.size
    then (close_gap d index >>= λ rest. ok (rest, take_out d (u64 (index * d.stride)) e))
    else trap index_out_of_bound

unfoldable pub clear : DArray → DArray
clear d = with_size d 0
