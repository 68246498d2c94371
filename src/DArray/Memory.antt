-- ===== src/DArray/Memory.antt =====
-- Bytes of an array, and the C library's copies over them.
use snuk.Prelude.{
  ℕ, zero, suc, ◌+◌, ◌-◌, ◌*◌, ◌≤◌, ◌<◌, ◌≡◌, refl, ap, ap₂, ◌∙◌, Bool, ◌&&◌, List, [], ◌∷◌, ◌++◌,
  arith, leb, ltb, if◌then◌else◌, length,
}

abbrev pub Bytes : Type 0
Bytes = ℕ → ℕ

abbrev pub within : ℕ → ℕ → ℕ → Bool
within a n i = leb a i && ltb i (a + n)

-- `memcpy` of `n` bytes of `e` to the offset `a`
unfoldable pub memcpy : Bytes → ℕ → Bytes → ℕ → Bytes
memcpy mem a e n i = if within a n i then e (i - a) else mem i

-- `memmove` of `n` bytes from the offset `src` to the offset `dest`
unfoldable pub memmove : Bytes → ℕ → ℕ → ℕ → Bytes
memmove mem dest src n i = if within dest n i then mem (src + (i - dest)) else mem i

-- `memset` of `n` bytes from the offset `a` on to 0
unfoldable pub memset_zero : Bytes → ℕ → ℕ → Bytes
memset_zero mem a n i = if within a n i then 0 else mem i

-- What the array relies on of `realloc`: the bytes of the old block that the new one has room for
-- stay what they are. The numbers are the sizes of the blocks, counted from the first element.
pub record Allocator : Type 0 where
  pub realloc : ℕ → ℕ → Bytes → Bytes
  pub realloc_keeps :
      (old new : ℕ) (mem : Bytes) (i : ℕ) → i < old → i < new → realloc old new mem i ≡ mem i

-- The `n` bytes from the offset `a` on.
abbrev pub bytes_at : Bytes → ℕ → ℕ → List ℕ
bytes_at mem a zero = []
bytes_at mem a (suc n) = mem a ∷ bytes_at mem (a + 1) n

-- The `k` elements of `stride` bytes from the offset `a` on.
abbrev pub elements : Bytes → ℕ → ℕ → ℕ → List (List ℕ)
elements mem stride a zero = []
elements mem stride a (suc k) = bytes_at mem a stride ∷ elements mem stride (a + stride) k

pub bytes_at_ext :
    (m m' : Bytes) (a b n : ℕ)
    → ((i : ℕ) → i < n → m (a + i) ≡ m' (b + i))
    → bytes_at m a n ≡ bytes_at m' b n
bytes_at_ext m m' a b zero h = refl
bytes_at_ext m m' a b (suc n) h =
    ap₂ ◌∷◌ (shift0 (h 0 (omega arith)))
      (bytes_at_ext m m' (a + 1) (b + 1) n λ i lt. shift1 i (h (i + 1) (omega arith)))
  where
    shift0 : m (a + 0) ≡ m' (b + 0) → m a ≡ m' b
    shift0 e = ap m (omega arith) ∙ e ∙ ap m' (omega arith)

    shift1 : (i : ℕ) → m (a + (i + 1)) ≡ m' (b + (i + 1)) → m (a + 1 + i) ≡ m' (b + 1 + i)
    shift1 i e = ap m (omega arith) ∙ e ∙ ap m' (omega arith)

-- Blocks of equal bytes hold equal elements.
pub elements_ext :
    (m m' : Bytes) (stride a b k : ℕ)
    → ((i : ℕ) → i < k * stride → m (a + i) ≡ m' (b + i))
    → elements m stride a k ≡ elements m' stride b k
elements_ext m m' s a b zero h = refl
elements_ext m m' s a b (suc k) h = ap₂ ◌∷◌ (bytes_at_ext m m' a b s λ i lt. h i (grind arith)) (
    elements_ext m m' s (a + s) (b + s) k
      λ i lt. ap m (omega arith) ∙ h (s + i) (grind arith) ∙ ap m' (omega arith))

pub elements-append :
    (m : Bytes) (stride a k n : ℕ)
    → elements m stride a (k + n) ≡ elements m stride a k ++ elements m stride (a + k * stride) n
elements-append m s a zero n = ap₂ (elements m s) (omega arith) (omega arith)
elements-append m s a (suc k) n =
    ap (elements m s a) (next k n)
    ∙ ap (◌∷◌ (bytes_at m a s)) (
        elements-append m s (a + s) k n
        ∙ ap (λ b. elements m s (a + s) k ++ elements m s b n) (grind arith))
  where
    next : (k n : ℕ) → suc k + n ≡ suc (k + n)
    next k n = omega arith

pub length-elements : (m : Bytes) (s a k : ℕ) → length (elements m s a k) ≡ k
length-elements m s a zero = refl
length-elements m s a (suc k) = ap suc (length-elements m s (a + s) k)

memcpy-before : (m : Bytes) (a : ℕ) (e : Bytes) (n i : ℕ) → i < a → memcpy m a e n i ≡ m i
unfolding memcpy
memcpy-before m a e n i lt = ground arith

memcpy-behind : (m : Bytes) (a : ℕ) (e : Bytes) (n i : ℕ) → a + n ≤ i → memcpy m a e n i ≡ m i
unfolding memcpy
memcpy-behind m a e n i le = ground arith

pub memcpy-inside : (m : Bytes) (a : ℕ) (e : Bytes) (n i : ℕ) → i < n → memcpy m a e n (a + i) ≡ e i
unfolding memcpy
memcpy-inside m a e n i lt = inside ∙ ap e (omega arith)
  where
    inside : (if within a n (a + i) then e (a + i - a) else m (a + i)) ≡ e (a + i - a)
    inside = ground arith

-- One element copied over the element `k` of an array of `k + 1 + n`.
pub elements-memcpy :
    (m e : Bytes) (s k n : ℕ)
    → elements (memcpy m (k * s) e s) s 0 (k + suc n)
      ≡ elements m s 0 k ++ bytes_at e 0 s ∷ elements m s (suc k * s) n
elements-memcpy m e s k n =
    elements-append m' s 0 k (suc n)
    ∙ ap₂ ◌++◌ front (
        ap₂ ◌∷◌
          (bytes_at_ext m' e (0 + k * s) 0 s
            λ i lt. ap m' (omega arith) ∙ memcpy-inside m (k * s) e s i lt ∙ ap e (omega arith))
          (elements_ext m' m s (0 + k * s + s) (suc k * s) n λ i lt.
            memcpy-behind m (k * s) e s (0 + k * s + s + i) (omega arith) ∙ ap m (grind arith)))
  where
    m' : Bytes
    m' = memcpy m (k * s) e s

    front : elements m' s 0 k ≡ elements m s 0 k
    front =
        elements_ext m' m s 0 0 k λ i lt. memcpy-before m (k * s) e s (0 + i) (omega (arith, lt))

memmove-before : (m : Bytes) (a b n i : ℕ) → i < a → memmove m a b n i ≡ m i
unfolding memmove
memmove-before m a b n i lt = ground arith

memmove-inside : (m : Bytes) (a b n i : ℕ) → i < n → memmove m a b n (a + i) ≡ m (b + i)
unfolding memmove
memmove-inside m a b n i lt = inside ∙ ap m (omega arith)
  where
    inside : (if within a n (a + i) then m (b + (a + i - a)) else m (a + i)) ≡ m (b + (a + i - a))
    inside = ground arith

-- The elements in front of the destination of a move stay, the destination has the source's.
pub elements-memmove_front :
    (m : Bytes) (s k a b n : ℕ) → k * s ≤ a → elements (memmove m a b n) s 0 k ≡ elements m s 0 k
elements-memmove_front m s k a b n le =
    elements_ext _ m s 0 0 k λ i lt. memmove-before m a b n (0 + i) (omega (arith, lt, le))

pub elements-memmove :
    (m : Bytes) (s a b n : ℕ) → elements (memmove m a b (n * s)) s a n ≡ elements m s b n
elements-memmove m s a b n = elements_ext _ m s a b n λ i lt. memmove-inside m a b (n * s) i lt
