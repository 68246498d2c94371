-- ===== src/Pages/Stack.antt =====
-- The two regions of the page allocator, and the order of freeing.
use snuk.Prelude.{
  ℕ, ◌+◌, ◌-◌, ◌*◌, ◌≤◌, ◌<◌, ◌≡◌, refl, sym, ap, ◌∙◌, Bool, true, false, none, some, ok, trap,
  ◌==◌, if◌then◌else◌, arith, non_stack_order, mul_mono,
}
use snuk.Pages.{
  Vm, PageAllocator, u32, u32_sub, too_many, reverse_commit_pages, reverse_decommit_pages,
}

abbrev pub word : ℕ
word = 4294967296

-- The two regions do not meet, and the counts are 32-bit words.
pub record IsDisjoint (a : PageAllocator) : Type 0 where
  pub apart : a.committed_pages + a.reverse_committed_pages ≤ a.total_pages
  pub words : a.total_pages < word

u32_sub-le : (x y : ℕ) → y ≤ x → u32_sub x y ≡ x - y
unfolding u32_sub
u32_sub-le x y le = ground arith

-- Where the sum does not wrap around, the guard keeps the regions apart.
pub enough :
    (a : PageAllocator) (pages : ℕ)
    → IsDisjoint a
    → pages + a.total_pages < word
    → too_many a pages ≡ false
    → pages + a.committed_pages + a.reverse_committed_pages ≤ a.total_pages
unfolding too_many u32
enough a pages d small h = ground (arith, d.apart)

-- Inversion of the two tests of a commit.
pub guarded-some :
    {A : Type 0} (c g : Bool) {p q : A}
    → (if c then none else if g then some p else none) ≡ some q
    → (c ≡ false) × (p ≡ q)
guarded-some true g h = cc
guarded-some false true h = (refl, cc)
guarded-some false false h = cc

-- What a successful commit at the end of the range does.
pub record Reversed (vm : Vm) (a : PageAllocator) (pages : ℕ) (a' : PageAllocator) (start : ℕ)
    : Type 0 where
  pub counted : a' ≡ record a { reverse_committed_pages = a.reverse_committed_pages + pages }
  pub room : pages + a.committed_pages + a.reverse_committed_pages ≤ a.total_pages
  pub placed : start ≡ a.base + (a.total_pages - a.reverse_committed_pages - pages) * vm.page_size

pub u32-small : (n : ℕ) → n < word → u32 n ≡ n
unfolding u32
u32-small n lt = omega arith

reverse_commit-Reversed :
    (vm : Vm) (a : PageAllocator) (pages : ℕ) (a' : PageAllocator) (start : ℕ)
    → IsDisjoint a
    → pages + a.total_pages < word
    → reverse_commit_pages vm a pages ≡ some (a', start)
    → Reversed vm a pages a' start
unfolding reverse_commit_pages
reverse_commit-Reversed vm a pages a' start d small h = record {
  counted =
      sym (ap (λ p. p.0) split.1)
      ∙ ap (λ n. record a { reverse_committed_pages = n })
          (u32-small (a.reverse_committed_pages + pages) (omega (arith, room, d.words)));
  room = room;
  placed = sym (ap (λ p. p.1) split.1) ∙ ap (λ n. a.base + n * vm.page_size) distance;
}
  where
    split :
        (too_many a pages ≡ false)
        × (◌≡◌ {A = PageAllocator × ℕ}
            (
              record a { reverse_committed_pages = u32 (a.reverse_committed_pages + pages) },
              a.base
                  + u32_sub (u32_sub a.total_pages a.reverse_committed_pages) pages * vm.page_size,
            )
            (a', start))
    split = guarded-some (too_many a pages) _ h

    room : pages + a.committed_pages + a.reverse_committed_pages ≤ a.total_pages
    room = enough a pages d small split.0

    distance :
        u32_sub (u32_sub a.total_pages a.reverse_committed_pages) pages
        ≡ a.total_pages - a.reverse_committed_pages - pages
    distance =
        ap (λ n. u32_sub n pages)
          (u32_sub-le a.total_pages a.reverse_committed_pages (omega (arith, room)))
        ∙ u32_sub-le (a.total_pages - a.reverse_committed_pages) pages (omega (arith, room))

-- Pages allocated from the end of the range lie behind the pages committed from its start, and the
-- two regions still do not meet, where the sum of the guard does not wrap around.
pub reverse_commit-IsDisjoint :
    (vm : Vm) (a : PageAllocator) (pages : ℕ) (a' : PageAllocator) (start : ℕ)
    → IsDisjoint a
    → pages + a.total_pages < word
    → reverse_commit_pages vm a pages ≡ some (a', start)
    → IsDisjoint a' × (a'.base + a'.committed_pages * vm.page_size ≤ start)
reverse_commit-IsDisjoint vm a pages a' start d small h =
    rw (r.counted, r.placed) (record { apart = omega (arith, r.room); words = d.words }, below)
  where
    r : Reversed vm a pages a' start
    r = reverse_commit-Reversed vm a pages a' start d small h

    below :
        a.base + a.committed_pages * vm.page_size
        ≤ a.base + (a.total_pages - a.reverse_committed_pages - pages) * vm.page_size
    below = omega (
      arith,
      mul_mono a.committed_pages (a.total_pages - a.reverse_committed_pages - pages) vm.page_size
          (omega (arith, r.room)),
    )

u32_sub-u32 :
    (t r p : ℕ) → t < word → r < word → p < word → u32_sub t (u32 (r + p)) ≡ u32_sub (u32_sub t r) p
unfolding u32_sub u32
u32_sub-u32 t r p lt lr lp = ground arith

u32_sub-back : (r p : ℕ) → r < word → p < word → u32_sub (u32 (r + p)) p ≡ r
unfolding u32_sub u32
u32_sub-back r p lr lp = ground arith

-- Freeing the pages that were allocated last gives back the allocator as it was before, where the total,
-- the number of the pages and the count of the pages committed from the end are 32-bit numbers; also where
-- the sums wrap around.
pub decommit-commit :
    (vm : Vm) (a : PageAllocator) (pages : ℕ) (a' : PageAllocator) (start : ℕ)
    → a.total_pages < word
    → a.reverse_committed_pages < word
    → pages < word
    → reverse_commit_pages vm a pages ≡ some (a', start)
    → reverse_decommit_pages vm a' start pages ≡ ok a
unfolding reverse_commit_pages reverse_decommit_pages
decommit-commit vm a pages a' start t r p h =
    rw (sym (ap (λ p. p.0) split.1), sym (ap (λ p. p.1) split.1)) simp (here, back) refl
  where
    split :
        (too_many a pages ≡ false)
        × (◌≡◌ {A = PageAllocator × ℕ}
            (
              record a { reverse_committed_pages = u32 (a.reverse_committed_pages + pages) },
              a.base
                  + u32_sub (u32_sub a.total_pages a.reverse_committed_pages) pages * vm.page_size,
            )
            (a', start))
    split = guarded-some (too_many a pages) _ h

    here :
        (a.base + u32_sub a.total_pages (u32 (a.reverse_committed_pages + pages)) * vm.page_size
          == a.base
            + u32_sub (u32_sub a.total_pages a.reverse_committed_pages) pages * vm.page_size)
        ≡ true
    here = rw (u32_sub-u32 a.total_pages a.reverse_committed_pages pages t r p) (ground arith)

    back : u32_sub (u32 (a.reverse_committed_pages + pages)) pages ≡ a.reverse_committed_pages
    back = u32_sub-back a.reverse_committed_pages pages r p

-- Freeing any other block first is the fault of freeing out of stack order.
pub decommit-out_of_order :
    (vm : Vm) (a : PageAllocator) (first second : ℕ) (a1 a2 : PageAllocator) (p1 p2 : ℕ)
    → IsDisjoint a
    → first + a.total_pages < word
    → second + a.total_pages < word
    → 0 < second
    → 0 < vm.page_size
    → reverse_commit_pages vm a first ≡ some (a1, p1)
    → reverse_commit_pages vm a1 second ≡ some (a2, p2)
    → reverse_decommit_pages vm a2 p1 first ≡ trap non_stack_order
unfolding reverse_decommit_pages
decommit-out_of_order vm a first second a1 a2 p1 p2 d s1 s2 some_pages some_bytes h1 h2 =
    simp wrong refl
  where
    r1 : Reversed vm a first a1 p1
    r1 = reverse_commit-Reversed vm a first a1 p1 d s1 h1

    total1 : a1.total_pages ≡ a.total_pages
    total1 = ap (λ a. a.total_pages) r1.counted

    r2 : Reversed vm a1 second a2 p2
    r2 =
        reverse_commit-Reversed vm a1 second a2 p2
          (reverse_commit-IsDisjoint vm a first a1 p1 d s1 h1).0 (omega (arith, s2, total1)) h2

    base2 : a2.base ≡ a.base
    base2 = ap (λ a. a.base) r2.counted ∙ ap (λ a. a.base) r1.counted

    total2 : a2.total_pages ≡ a.total_pages
    total2 = ap (λ a. a.total_pages) r2.counted ∙ total1

    reverse1 : a1.reverse_committed_pages ≡ a.reverse_committed_pages + first
    reverse1 = ap (λ a. a.reverse_committed_pages) r1.counted

    reverse2 : a2.reverse_committed_pages ≡ a.reverse_committed_pages + first + second
    reverse2 = ap (λ a. a.reverse_committed_pages) r2.counted ∙ ap (λ n. n + second) reverse1

    room : a.reverse_committed_pages + first + second ≤ a.total_pages
    room = omega (arith, r2.room, reverse1, total1)

    distance :
        u32_sub a.total_pages (a.reverse_committed_pages + first + second)
        ≡ a.total_pages - (a.reverse_committed_pages + first + second)
    distance = u32_sub-le a.total_pages (a.reverse_committed_pages + first + second) room

    before :
        (a.total_pages - (a.reverse_committed_pages + first + second) + 1) * vm.page_size
        ≤ (a.total_pages - a.reverse_committed_pages - first) * vm.page_size
    before =
        mul_mono _ (a.total_pages - a.reverse_committed_pages - first) vm.page_size
          (omega (arith, room, some_pages))

    wrong :
        (a2.base + u32_sub a2.total_pages a2.reverse_committed_pages * vm.page_size == p1) ≡ false
    wrong = rw (base2, total2, reverse2, r1.placed, distance) (ground (arith, before, some_bytes))
