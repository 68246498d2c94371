-- ===== src/RefCount.antt =====
-- include/snuk/refcount.h: reference counters. The object that a counter guards is the flag whether
-- it is still there; the memory of the counter itself is the flag `freed`, and every operation on a
-- freed counter is the fault `wild`.
pub mod Steps
mod Tests
use snuk.Prelude.{
  ℕ, ◌+◌, ◌-◌, ◌%◌, Bool, true, false, not, ◌&&◌, Outcome, ok, trap, ◌>>=◌, null_counter, no_strong,
  no_weak, wild, ◌==◌, if◌then◌else◌,
}

pub record RefCounter : Type 0 where
  pub mem : Bool
  pub strong_count : ℕ
  pub weak_count : ℕ
  pub freed : Bool
  pub free_calls : ℕ

abbrev pub count : ℕ → ℕ
count n = n % 18446744073709551616

-- `free_calls` counts the calls of `free_fn`.
unfoldable pub create : RefCounter
create = record { mem = true; strong_count = 1; weak_count = 0; freed = false; free_calls = 0 }

-- What `snuk_ref_counter_get` gives: whether there is an object.
unfoldable pub get : RefCounter → Outcome Bool
get rc = if rc.freed then trap wild else ok rc.mem

-- The counter after the call, and whether the call returned it or NULL.
unfoldable pub retain : RefCounter → Outcome (RefCounter × Bool)
retain rc =
    if rc.freed
    then trap wild
    else if rc.strong_count == 0
    then ok (rc, false)
    else ok (record rc { strong_count = count (rc.strong_count + 1) }, true)

unfoldable pub retain_weak : RefCounter → Outcome (RefCounter × Bool)
retain_weak rc =
    if rc.freed
    then trap wild
    else if rc.weak_count == 0 && rc.strong_count == 0
    then ok (rc, false)
    else ok (record rc { weak_count = count (rc.weak_count + 1) }, true)

-- The end of both releases: a counter without references is freed.
unfoldable pub free_unused : RefCounter → RefCounter
free_unused rc =
    if count (rc.strong_count + rc.weak_count) == 0 then record rc { freed = true } else rc

-- The call of `free_fn` on the object when the last strong reference goes; the function is taken to retain
-- and release nothing of this counter.
unfoldable pub drop_object : RefCounter → RefCounter
drop_object rc =
    if rc.strong_count == 1 then record rc { mem = false; free_calls = rc.free_calls + 1 } else rc

unfoldable pub release : RefCounter → Outcome RefCounter
release rc =
    if rc.freed
    then trap wild
    else if rc.strong_count == 0
    then trap no_strong
    else (let rc = drop_object rc in
        ok (free_unused (record rc { strong_count = rc.strong_count - 1 })))

unfoldable pub release_weak : RefCounter → Outcome RefCounter
release_weak rc =
    if rc.freed
    then trap wild
    else if rc.weak_count == 0
    then trap no_weak
    else ok (free_unused (record rc { weak_count = rc.weak_count - 1 }))

unfoldable pub downgrade : RefCounter → Outcome RefCounter
downgrade rc = retain_weak rc >>= λ r. release (r.0)
