-- ===== src/DArray/Elements.antt =====
-- What the operations of an array do to the list of its elements.
use snuk.Prelude.{
  ℕ, suc, ◌+◌, ◌-◌, ◌*◌, ◌%◌, ◌≤◌, ◌<◌, ◌≡◌, refl, ap, ◌∙◌, true, List, [], ok, arith, leb,
  Bool-cases, inl, inr, mul_mono,
}
use snuk.DArray.Memory.{Bytes, Allocator, memcpy, elements, elements_ext}
use snuk.DArray.Ops.{
  DArray, word, u64, header_size, block_size, create, aligned_next, resize, put, make_room,
}

-- The elements of the array, each with its bytes.
unfoldable pub view : DArray → List (List ℕ)
view d = elements d.mem d.stride 0 d.size

-- The elements lie in the block, and its size is a word.
pub record IsArray (d : DArray) : Type 0 where
  pub fits : d.size ≤ d.capacity
  pub room : d.capacity * d.stride ≤ d.block
  pub bounded : d.block < word
  pub shifted : d.shift ≤ d.align
  pub small : d.capacity * d.stride + header_size + d.align < word

pub u64-small : (n : ℕ) → n < word → u64 n ≡ n
unfolding u64
u64-small n lt = omega arith

pub block_size_lem :
    (c s al sh : ℕ) → c * s + header_size + al < word → sh ≤ al → c * s ≤ block_size c s al sh
unfolding block_size
block_size_lem c s al sh small le = omega (arith, u64-small (c * s + header_size + al) small)

pub block_size-bounded : (c s al sh : ℕ) → block_size c s al sh < word
unfolding block_size u64
block_size-bounded c s al sh = omega arith

-- A created array is an array without elements, if its size in bytes is a word.
pub create-IsArray :
    (ptr c s al : ℕ)
    → c * s + header_size + al < word
    → IsArray (create ptr c s al) × (view (create ptr c s al) ≡ [])
unfolding create view aligned_next
create-IsArray ptr c s al small = (
  record {
    fits = omega arith;
    room = block_size_lem c s al _ small le;
    bounded = block_size-bounded c s al _;
    shifted = le;
    small = small;
  },
  refl,
)
  where
    le : ptr + header_size + al - (ptr + header_size + al) % al - (ptr + header_size) ≤ al
    le = omega arith

-- Memory that agrees on the elements has the same view.
pub view_ext :
    (m m' : Bytes) (s k : ℕ)
    → ((i : ℕ) → i < k * s → m i ≡ m' i)
    → elements m s 0 k ≡ elements m' s 0 k
view_ext m m' s k h =
    elements_ext m m' s 0 0 k λ i lt. ap m (omega arith) ∙ h i lt ∙ ap m' (omega arith)

pub size_bytes : (d : DArray) → IsArray d → (k : ℕ) → k ≤ d.capacity → k * d.stride ≤ d.block
size_bytes d h k le = omega (arith, mul_mono k d.capacity d.stride le, h.room)

pub offset_small :
    (d : DArray) → IsArray d → (k : ℕ) → k ≤ d.capacity → u64 (k * d.stride) ≡ k * d.stride
offset_small d h k le =
    u64-small (k * d.stride) (omega (arith, mul_mono k d.capacity d.stride le, h.small))

pub resize-IsArray :
    (a : Allocator) (d : DArray) (c : ℕ)
    → IsArray d
    → d.size ≤ c
    → c * d.stride + header_size + d.align < word
    → IsArray (resize a d c)
unfolding resize
resize-IsArray a d c h le small = record {
  fits = le;
  room = block_size_lem c d.stride d.align d.shift small h.shifted;
  bounded = block_size-bounded c d.stride d.align d.shift;
  shifted = h.shifted;
  small = small;
}

pub view-resize :
    (a : Allocator) (d : DArray) (c : ℕ)
    → IsArray d
    → d.size ≤ c
    → c * d.stride + header_size + d.align < word
    → view (resize a d c) ≡ view d
unfolding view resize
view-resize a d c h le small = view_ext _ _ d.stride d.size λ i lt.
    a.realloc_keeps d.block _ d.mem i (omega (arith, lt, size_bytes d h d.size h.fits)) (
      omega (
        arith,
        lt,
        mul_mono d.size c d.stride le,
        block_size_lem c d.stride d.align d.shift small h.shifted,
      ))

-- A full array is doubled before an element is pushed, which needs a capacity that is not 0.
pub record HasRoom (d : DArray) : Type 0 where
  pub some_capacity : 0 < d.capacity
  pub doubled : d.capacity * 2 * d.stride + header_size + d.align < word
  pub counted : d.capacity * 2 < word

-- What `make_room` gives `push`: the same elements, and room for one more.
pub record Roomy (d d' : DArray) : Type 0 where
  pub array : IsArray d'
  pub one_more : d'.size < d'.capacity
  pub counted : d'.capacity < word
  pub same_view : view d' ≡ view d
  pub same_size : d'.size ≡ d.size
  pub same_stride : d'.stride ≡ d.stride

doubled-Roomy :
    (a : Allocator) (d : DArray)
    → IsArray d
    → HasRoom d
    → d.capacity ≤ d.size
    → Roomy d (resize a d (d.capacity * 2))
unfolding resize
doubled-Roomy a d h r full = record {
  array = resize-IsArray a d (d.capacity * 2) h le r.doubled;
  one_more = omega (arith, h.fits, r.some_capacity);
  counted = r.counted;
  same_view = view-resize a d (d.capacity * 2) h le r.doubled;
  same_size = refl;
  same_stride = refl;
}
  where
    le : d.size ≤ d.capacity * 2
    le = omega (arith, h.fits)

pub make_room-Roomy : (a : Allocator) (d : DArray) → IsArray d → HasRoom d → Roomy d (make_room a d)
unfolding make_room
make_room-Roomy a d h r = elim (Bool-cases (leb d.capacity d.size)) [
  | inl full ↦
      simp (full, u64-small (d.capacity * 2) r.counted) (doubled-Roomy a d h r (ground arith))
  | inr free ↦ simp free record {
    array = h;
    one_more = ground arith;
    counted = omega (arith, r.counted);
    same_view = refl;
    same_size = refl;
    same_stride = refl;
  }
]

-- The copy of an element to a place below the capacity stays inside the block.
pub put_ok :
    (d : DArray) (k : ℕ) (e : Bytes)
    → IsArray d
    → k < d.capacity
    → put d (u64 (k * d.stride)) e ≡ ok (record d { mem = memcpy d.mem (k * d.stride) e d.stride })
unfolding put
put_ok d k e h lt = simp (offset_small d h k (omega (arith, lt)), room) refl
  where
    bytes : suc k * d.stride ≤ d.block
    bytes = size_bytes d h (suc k) lt

    room : leb (k * d.stride + d.stride) d.block ≡ true
    room = ground (arith, bytes)
