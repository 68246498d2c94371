-- ===== src/DArray/Pop.antt =====
-- `pop`, `pop_at` and what they promise.
use snuk.Prelude.{
  ℕ, suc, ◌+◌, ◌-◌, ◌*◌, ◌≤◌, ◌<◌, ◌≡◌, refl, ap, ap₂, ◌∙◌, sym, true, false, [], ◌∷◌, ◌++◌, some,
  ok, mul_mono, arith, ltb, ◌==◌, take, drop,
}
use snuk.DArray.Memory.{
  Bytes, memcpy, memmove, bytes_at, elements, elements-memmove, elements-memmove_front,
  bytes_at_ext, memcpy-inside,
}
use snuk.DArray.Ops.{DArray, u64, move, pop, pop_at, close_gap, take_out, with_size}
use snuk.DArray.Elements.{view, IsArray, offset_small}
use snuk.DArray.Places.{move_ok, with_size-IsArray, take-view, drop-view, view-append}

-- The bytes that an out parameter has after a copy of the element at `src`.
abbrev pub copied : DArray → ℕ → Bytes → Bytes
copied d src out = memcpy out 0 (λ i. d.mem (src + i)) d.stride

bytes_at-copied :
    (d : DArray) (src : ℕ) (out : Bytes)
    → bytes_at (copied d src out) 0 d.stride ≡ bytes_at d.mem src d.stride
bytes_at-copied d src out =
    bytes_at_ext (copied d src out) d.mem 0 src d.stride
      λ i lt. memcpy-inside out 0 (λ i. d.mem (src + i)) d.stride i lt

-- Popping from an array with elements takes the last one off, and copies its bytes to the out
-- parameter.
pub pop-view :
    (d : DArray) (out : Bytes)
    → IsArray d
    → 0 < d.size
    → (d' : DArray) × (out' : Bytes) × (pop d (some out) ≡ (d', some out'))
      × IsArray d'
      × (view d ≡ view d' ++ bytes_at out' 0 d.stride ∷ [])
unfolding pop view take_out
pop-view d out h lt = (
  d',
  copied d last out,
  returns,
  with_size-IsArray d d.mem (d.size - 1) h (omega (arith, h.fits)),
  split,
)
  where
    d' : DArray
    d' = with_size d (d.size - 1)

    last : ℕ
    last = (d.size - 1) * d.stride

    returns : pop d (some out) ≡ (d', some (copied d last out))
    returns = simp (nonempty, offset_small d h (d.size - 1) (omega (arith, h.fits))) refl
      where
        nonempty : (d.size == 0) ≡ false
        nonempty = ground arith

    split : view d ≡ view d' ++ bytes_at (copied d last out) 0 d.stride ∷ []
    split =
        view-append d (d.size - 1) (omega arith)
        ∙ ap (λ k. view d' ++ elements d.mem d.stride last k) {y = 1} (omega (arith, lt))
        ∙ ap (λ b. view d' ++ b ∷ []) (sym (bytes_at-copied d last out))

close_gap_ok :
    (d : DArray) (i n : ℕ)
    → IsArray d
    → d.size ≡ i + suc n
    → close_gap d i
      ≡ ok (
          with_size
            (record d { mem = memmove d.mem (i * d.stride) ((i + 1) * d.stride) (n * d.stride) })
            (d.size - 1))
unfolding close_gap
close_gap_ok d i n h split = simp (rest, moved) refl
  where
    rest : d.size - i - 1 ≡ n
    rest = omega (arith, split)

    room : (i + suc n) * d.stride ≤ d.capacity * d.stride
    room = mul_mono (i + suc n) d.capacity d.stride (omega (arith, split, h.fits))

    moved :
        move d (u64 (i * d.stride)) (u64 ((i + 1) * d.stride)) (u64 (n * d.stride))
        ≡ ok (record d { mem = memmove d.mem (i * d.stride) ((i + 1) * d.stride) (n * d.stride) })
    moved =
        move_ok d (i * d.stride) ((i + 1) * d.stride) (n * d.stride) h (omega (arith, room))
          (omega (arith, room))

-- Popping the element at an index of the array takes just that element out, copies its bytes to the
-- out parameter, and stays inside the array's block.
pub pop_at-view :
    (d : DArray) (index : ℕ) (out : Bytes)
    → IsArray d
    → index < d.size
    → (d' : DArray) × (out' : Bytes) × (pop_at d index (some out) ≡ ok (d', some out'))
      × IsArray d'
      × (view d' ≡ take index (view d) ++ drop (suc index) (view d))
      × (view d ≡ take index (view d) ++ bytes_at out' 0 d.stride ∷ drop (suc index) (view d))
unfolding pop_at take_out
pop_at-view d index out h lt = (
  d',
  copied d (index * d.stride) out,
  returns,
  with_size-IsArray d m' (d.size - 1) h (omega (arith, h.fits)),
  closed,
  split,
)
  where
    n : ℕ
    n = d.size - index - 1

    m' : Bytes
    m' = memmove d.mem (index * d.stride) ((index + 1) * d.stride) (n * d.stride)

    d' : DArray
    d' = with_size (record d { mem = m' }) (d.size - 1)

    inside : ltb index d.size ≡ true
    inside = ground arith

    returns : pop_at d index (some out) ≡ ok (d', some (copied d (index * d.stride) out))
    returns =
        simp
          (
            inside,
            close_gap_ok d index n h (omega (arith, lt)),
            offset_small d h index (omega (arith, lt, h.fits)),
          )
          refl

    before : elements d.mem d.stride 0 index ≡ take index (view d)
    before = sym (take-view d index (omega (arith, lt)))

    behind : elements d.mem d.stride ((index + 1) * d.stride) n ≡ drop (suc index) (view d)
    behind =
        ap₂ (elements d.mem d.stride) (omega arith) (omega arith) ∙ sym (drop-view d (suc index) lt)

    closed : view d' ≡ take index (view d) ++ drop (suc index) (view d)
    closed =
        view-append d' index (omega (arith, lt))
        ∙ ap₂ ◌++◌
            (elements-memmove_front d.mem d.stride index (index * d.stride) ((index + 1) * d.stride)
                (n * d.stride) (omega arith)
              ∙ before)
            (ap (elements m' d.stride (index * d.stride)) (omega arith)
              ∙ elements-memmove d.mem d.stride (index * d.stride) ((index + 1) * d.stride) n
              ∙ behind)

    split :
        view d
        ≡ take index (view d)
          ++ bytes_at (copied d (index * d.stride) out) 0 d.stride ∷ drop (suc index) (view d)
    split =
        view-append d index (omega (arith, lt))
        ∙ ap (λ k. elements d.mem d.stride 0 index ++ elements d.mem d.stride (index * d.stride) k)
            {y = suc n} (omega (arith, lt))
        ∙ ap₂ ◌++◌ before (
            ap₂ ◌∷◌ (sym (bytes_at-copied d (index * d.stride) out))
              (ap (λ a. elements d.mem d.stride a n) (omega arith) ∙ behind))
