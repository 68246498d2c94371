-- ===== src/Pages/Tests.antt =====
-- The theorems about page allocation at concrete inputs.
use snuk.Prelude.{ℕ, ◌≡◌, ◌+◌, refl, true, none, some, ok, arith}
use snuk.Pages.{
  Vm, PageAllocator, Freelist, u32, u32_sub, too_many, commit_pages, reverse_commit_pages,
  reverse_decommit_pages,
}
use snuk.Pages.Stack.{decommit-commit}

abbrev vm : Vm
vm = record { page_size = 4096; vm_commit = λ start pages. true }

-- Ten pages, of which two are taken from the start and one from the end.
abbrev ten : PageAllocator
ten = record { base = 8192; total_pages = 10; committed_pages = 2; reverse_committed_pages = 1 }

abbrev ten_and_three : PageAllocator
ten_and_three = record ten { reverse_committed_pages = 4 }

three_pages : reverse_commit_pages vm ten 3 ≡ some (ten_and_three, 32768)
unfolding reverse_commit_pages too_many u32 u32_sub
three_pages = refl

two_more :
    reverse_commit_pages vm ten_and_three 2
    ≡ some (record ten { reverse_committed_pages = 6 }, 24576)
unfolding reverse_commit_pages too_many u32 u32_sub
two_more = refl

one_page : commit_pages vm ten 1 ≡ some (record ten { committed_pages = 3 }, 16384)
unfolding commit_pages too_many u32
one_page = refl

decommit-commit_example : reverse_decommit_pages vm ten_and_three 32768 3 ≡ ok ten
decommit-commit_example =
    decommit-commit vm ten 3 ten_and_three 32768 (omega arith) (omega arith) (omega arith)
      three_pages

-- A free list that never has memory.
abbrev starved : Freelist ℕ
starved = record { allocate = λ f size align. none; increase_memory_size = λ f base n. f + n }
