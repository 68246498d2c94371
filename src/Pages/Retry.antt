-- ===== src/Pages/Retry.antt =====
-- The rounds of `snuk_alloc`, and the pages that each of them takes.
use snuk.Prelude.{ℕ, ◌+◌, ◌-◌, ◌*◌, ◌≤◌, ◌<◌, ◌≡◌, sym, ap, ◌∙◌, false, some, arith}
use snuk.Pages.{Vm, PageAllocator, u32, too_many, commit_pages}
use snuk.Pages.Stack.{IsDisjoint, word, guarded-some, enough, u32-small}

-- What a successful commit at the start of the range does.
record Committed (a : PageAllocator) (pages : ℕ) (a' : PageAllocator) : Type 0 where
  counted : a' ≡ record a { committed_pages = a.committed_pages + pages }
  room : pages + a.committed_pages + a.reverse_committed_pages ≤ a.total_pages

commit-Committed :
    (vm : Vm) (a : PageAllocator) (pages : ℕ) (a' : PageAllocator) (start : ℕ)
    → IsDisjoint a
    → pages + a.total_pages < word
    → commit_pages vm a pages ≡ some (a', start)
    → Committed a pages a'
unfolding commit_pages
commit-Committed vm a pages a' start d small h = record {
  counted =
      sym (ap (λ p. p.0) split.1)
      ∙ ap (λ n. record a { committed_pages = n })
          (u32-small (a.committed_pages + pages) (omega (arith, room, d.words)));
  room = room;
}
  where
    split :
        (too_many a pages ≡ false)
        × (◌≡◌ {A = PageAllocator × ℕ}
            (
              record a { committed_pages = u32 (a.committed_pages + pages) },
              a.base + a.committed_pages * vm.page_size,
            )
            (a', start))
    split = guarded-some (too_many a pages) _ h

    room : pages + a.committed_pages + a.reverse_committed_pages ≤ a.total_pages
    room = enough a pages d small split.0

-- Committing pages at the start of the range keeps the two regions apart, where the sum of the guard
-- does not wrap around, and takes the pages asked for from those that are left.
pub commit-IsDisjoint :
    (vm : Vm) (a : PageAllocator) (pages : ℕ) (a' : PageAllocator) (start : ℕ)
    → IsDisjoint a
    → pages + a.total_pages < word
    → commit_pages vm a pages ≡ some (a', start)
    → IsDisjoint a'
      × (a'.total_pages - a'.committed_pages + pages ≡ a.total_pages - a.committed_pages)
commit-IsDisjoint vm a pages a' start d small h =
    rw c.counted (record { apart = omega (arith, c.room); words = d.words }, omega (arith, c.room))
  where
    c : Committed a pages a'
    c = commit-Committed vm a pages a' start d small h
