-- ===== src/DArray/Push.antt =====
-- `push`, `push_at` and what they promise.
use snuk.Prelude.{
  ℕ, suc, ◌+◌, ◌-◌, ◌*◌, ◌≤◌, ◌<◌, ◌≡◌, refl, ap, ap₂, ◌∙◌, sym, false, [], ◌∷◌, ◌++◌, ok, ◌>>=◌,
  mul_mono, arith, ltb, take, drop,
}
use snuk.DArray.Memory.{
  Bytes, Allocator, memcpy, memmove, bytes_at, elements, elements-memcpy, elements-memmove,
  elements-memmove_front,
}
use snuk.DArray.Ops.{DArray, word, u64, put, move, make_room, push, push_at, push_within, with_size}
use snuk.DArray.Elements.{view, IsArray, HasRoom, Roomy, make_room-Roomy, put_ok, u64-small}
use snuk.DArray.Places.{move_ok, with_size-IsArray, take-view, drop-view}

-- Pushing onto an array with a capacity whose double fits in 64 bits with its bytes writes only inside the array's block, appends the
-- bytes of the element to its elements, and leaves an array.
pub push-view :
    (a : Allocator) (d : DArray) (e : Bytes)
    → IsArray d
    → HasRoom d
    → (d' : DArray) × (push a d e ≡ ok d')
      × IsArray d'
      × (view d' ≡ view d ++ bytes_at e 0 d.stride ∷ [])
unfolding push view
push-view a d e h r = (
  d',
  returns,
  with_size-IsArray d1 _ (d1.size + 1) full.array (omega (arith, full.one_more)),
  appended,
)
  where
    full : Roomy d (make_room a d)
    full = make_room-Roomy a d h r

    d1 : DArray
    d1 = make_room a d

    d' : DArray
    d' =
        with_size (record d1 { mem = memcpy d1.mem (d1.size * d1.stride) e d1.stride })
          (d1.size + 1)

    returns :
        (put d1 (u64 (d1.size * d1.stride)) e >>= λ d. ok (with_size d (u64 (d.size + 1)))) ≡ ok d'
    returns =
        simp
          (
            put_ok d1 d1.size e full.array full.one_more,
            u64-small (d1.size + 1) (omega (arith, full.one_more, full.counted)),
          )
          refl

    appended : view d' ≡ view d ++ bytes_at e 0 d.stride ∷ []
    appended =
        elements-memcpy d1.mem e d1.stride d1.size 0
        ∙ ap₂ (λ v s. v ++ bytes_at e 0 s ∷ []) full.same_view full.same_stride

module _ (d : DArray) (i n : ℕ) (e : Bytes) where
  abbrev shifted_up : Bytes
  shifted_up = memmove d.mem (d.stride * (i + 1)) (d.stride * i) (d.stride * n)

  abbrev inserted : Bytes
  inserted = memcpy shifted_up (i * d.stride) e d.stride

  shifted_up-behind :
      elements shifted_up d.stride (suc i * d.stride) n ≡ elements d.mem d.stride (i * d.stride) n
  shifted_up-behind =
      ap₂ (λ a c. elements (memmove d.mem (d.stride * (i + 1)) (d.stride * i) c) d.stride a n)
        (omega arith) (omega arith)
      ∙ elements-memmove d.mem d.stride (d.stride * (i + 1)) (d.stride * i) n
      ∙ ap (λ a. elements d.mem d.stride a n) (omega arith)

  elements-inserted :
      elements inserted d.stride 0 (i + suc n)
      ≡ elements d.mem d.stride 0 i
        ++ bytes_at e 0 d.stride ∷ elements d.mem d.stride (i * d.stride) n
  elements-inserted =
      elements-memcpy shifted_up e d.stride i n
      ∙ ap₂ (λ x y. x ++ bytes_at e 0 d.stride ∷ y)
          (elements-memmove_front d.mem d.stride i (d.stride * (i + 1)) (d.stride * i)
            (d.stride * n) (omega arith))
          shifted_up-behind

  move_up_ok :
      IsArray d
      → d.size ≡ i + n
      → d.size < d.capacity
      → move d (u64 (d.stride * (i + 1))) (u64 (d.stride * i)) (u64 (d.stride * n))
        ≡ ok (record d { mem = shifted_up })
  move_up_ok h split lt =
      move_ok d (d.stride * (i + 1)) (d.stride * i) (d.stride * n) h (omega (arith, room))
        (omega (arith, room))
    where
      room : (i + n + 1) * d.stride ≤ d.capacity * d.stride
      room = mul_mono (i + n + 1) d.capacity d.stride (omega (arith, split, lt))

push_within-step :
    (d : DArray) (i : ℕ) (e : Bytes)
    → IsArray d
    → d.size < d.capacity
    → d.capacity < word
    → i ≤ d.size
    → (move d (u64 (d.stride * (i + 1))) (u64 (d.stride * i)) (u64 (d.stride * (d.size - i)))
        >>= λ d. put d (u64 (i * d.stride)) e >>= λ d. ok (with_size d (u64 (d.size + 1))))
      ≡ ok (with_size (record d { mem = inserted d i (d.size - i) e }) (d.size + 1))
push_within-step d i e h lt small le =
    simp
      (
        move_up_ok d i (d.size - i) e h (omega (arith, le)) lt,
        put_ok (record d { mem = shifted_up d i (d.size - i) e }) i e
            (with_size-IsArray d _ d.size h h.fits) (omega (arith, le, lt)),
        u64-small (d.size + 1) (omega (arith, lt, small)),
      )
      refl

-- Pushing onto an array with a capacity whose double fits in 64 bits with its bytes, at one of the
-- elements or at their end, moves the elements from there on one place up
-- inside the array's block, and puts the bytes of the element there.
pub push_at-view :
    (a : Allocator) (d : DArray) (index : ℕ) (e : Bytes)
    → IsArray d
    → HasRoom d
    → index ≤ d.size
    → (d' : DArray) × (push_at a d index e ≡ ok d')
      × IsArray d'
      × (view d' ≡ take index (view d) ++ bytes_at e 0 d.stride ∷ drop index (view d))
unfolding push_at push_within view
push_at-view a d index e h r le = (
  d',
  returns,
  with_size-IsArray d1 _ (d1.size + 1) full.array (omega (arith, full.one_more)),
  placed,
)
  where
    full : Roomy d (make_room a d)
    full = make_room-Roomy a d h r

    d1 : DArray
    d1 = make_room a d

    at : index ≤ d1.size
    at = omega (arith, le, full.same_size)

    d' : DArray
    d' = with_size (record d1 { mem = inserted d1 index (d1.size - index) e }) (d1.size + 1)

    split :
        view d'
        ≡ elements d1.mem d1.stride 0 index
          ++ bytes_at e 0 d1.stride
            ∷ elements d1.mem d1.stride (index * d1.stride) (d1.size - index)
    split =
        ap (elements (inserted d1 index (d1.size - index) e) d1.stride 0) (omega (arith, at))
        ∙ elements-inserted d1 index (d1.size - index) e

    placed : view d' ≡ take index (view d) ++ bytes_at e 0 d.stride ∷ drop index (view d)
    placed =
        split
        ∙ ap₂ (λ x y. x ++ bytes_at e 0 d1.stride ∷ y) (sym (take-view d1 index at))
            (sym (drop-view d1 index at))
        ∙ ap₂ (λ v s. take index v ++ bytes_at e 0 s ∷ drop index v) full.same_view full.same_stride

    inside : ltb d.size index ≡ false
    inside = ground arith

    returns : push_at a d index e ≡ ok d'
    returns = simp inside (push_within-step d1 index e full.array full.one_more full.counted at)
