-- ===== src/Pages.antt =====
-- src/memory.c: the page allocator, which commits pages from both ends of one reserved range, and the
-- general allocator on top of it. The two C libraries it calls, `sn_vm` and `sn_freelist`, are
-- parameters.
pub mod Stack
pub mod Retry
mod Tests
use snuk.Prelude.{
  ℕ, zero, suc, ◌+◌, ◌-◌, ◌*◌, ◌/◌, ◌%◌, Bool, Option, none, some, Outcome, ok, trap, ltb, ◌==◌,
  if◌then◌else◌, non_stack_order,
}

-- `sn_vm`: the size of a page, and whether committing pages at an address works.
pub record Vm : Type 0 where
  pub page_size : ℕ
  pub vm_commit : ℕ → ℕ → Bool

pub record PageAllocator : Type 0 where
  pub base : ℕ
  pub total_pages : ℕ
  pub committed_pages : ℕ
  pub reverse_committed_pages : ℕ

unfoldable pub u32 : ℕ → ℕ
u32 n = n % 4294967296

-- The pages that `snuk_memory_init` reserves.
unfoldable pub reserved_pages : Vm → ℕ → ℕ
reserved_pages vm reserve_size = u32 (reserve_size / vm.page_size + 1)

-- `base` is what `sn_vm_reserve` returned, 0 for NULL.
unfoldable pub create_allocator : ℕ → ℕ → Option PageAllocator
create_allocator base pages =
    if base == 0
    then none
    else some (record {
      base = base;
      total_pages = pages;
      committed_pages = 0;
      reverse_committed_pages = 0;
    })

-- The test that both ways of committing pages start with.
unfoldable pub too_many : PageAllocator → ℕ → Bool
too_many a pages = ltb a.total_pages (u32 (pages + a.committed_pages + a.reverse_committed_pages))

unfoldable pub commit_pages : Vm → PageAllocator → ℕ → Option (PageAllocator × ℕ)
commit_pages vm a pages =
    if too_many a pages
    then none
    else (let start = a.base + a.committed_pages * vm.page_size in
        if vm.vm_commit start pages
        then some (record a { committed_pages = u32 (a.committed_pages + pages) }, start)
        else none)

-- The distance of the reverse region's start from the range's end is a difference of 32-bit words.
unfoldable pub u32_sub : ℕ → ℕ → ℕ
u32_sub x y = if ltb x y then x + 4294967296 - y else x - y

unfoldable pub reverse_commit_pages : Vm → PageAllocator → ℕ → Option (PageAllocator × ℕ)
reverse_commit_pages vm a pages =
    if too_many a pages
    then none
    else (let start =
          a.base + u32_sub (u32_sub a.total_pages a.reverse_committed_pages) pages * vm.page_size in
        if vm.vm_commit start pages
        then some
            (record a { reverse_committed_pages = u32 (a.reverse_committed_pages + pages) }, start)
        else none)

unfoldable pub reverse_decommit_pages : Vm → PageAllocator → ℕ → ℕ → Outcome PageAllocator
reverse_decommit_pages vm a start pages =
    if a.base + u32_sub a.total_pages a.reverse_committed_pages * vm.page_size == start
    then ok (record a { reverse_committed_pages = u32_sub a.reverse_committed_pages pages })
    else trap non_stack_order

-- `sn_freelist`: an allocation, which is none for NULL, and the increase of its memory.
pub record Freelist (F : Type 0) : Type 0 where
  pub allocate : F → ℕ → ℕ → Option (F × ℕ)
  pub increase_memory_size : F → ℕ → ℕ → F

module _ {F : Type 0} (vm : Vm) (lib : Freelist F) where
  -- `none` is the exit of the program for want of memory.
  unfoldable pub try_increasing_allocator_size : PageAllocator → F → Option (PageAllocator × F)
  try_increasing_allocator_size a f = elim (commit_pages vm a 1) [
    | none ↦ none
    | some p ↦ some (p.0, lib.increase_memory_size f (p.1) vm.page_size)
  ]

  -- `snuk_alloc` calls itself: the outer option is none when the fuel is spent, the inner one when
  -- the program exits.
  unfoldable pub alloc : ℕ → ℕ → ℕ → PageAllocator → F → Option (Option (PageAllocator × F × ℕ))
  alloc zero size align a f = none
  alloc (suc fuel) size align a f = elim (lib.allocate f size align) [
    | some p ↦ some (some (a, p.0, p.1))
    | none ↦ elim (try_increasing_allocator_size a f) [
      | none ↦ some none
      | some p ↦ alloc fuel size align (p.0) (p.1)
    ]
  ]
