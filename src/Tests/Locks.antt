-- ===== src/Tests/Locks.antt =====
-- kernel/include/lock.h and two calls of proc_new.
use silkware.Base.{◌≡◌, refl, arith}
use silkware.Lock.{
  Shared, named, test_and_set, lock_clear, acquire_once, load_pid, store_pid, release_lock,
  name_proc, acquire, load, store, release, name_it, Steps, none_more, one_more, start_state,
}
use silkware.Lock.Exclusion.{IsExclusive, Steps-IsExclusive}

-- Call 0 and call 1 both take a pid, before either reads pid_cur again.
abbrev first_made : Shared
first_made = release_lock 0 1 (store_pid 0 0 (load_pid 0 (acquire_once 0 start_state)))

abbrev both_made : Shared
both_made = release_lock 1 2 (store_pid 1 1 (load_pid 1 (acquire_once 1 first_made)))

abbrev both_named : Shared
both_named = name_proc 1 2 (name_proc 0 1 both_made)

run : Steps start_state both_named
unfolding acquire_once test_and_set load_pid store_pid release_lock lock_clear name_proc
run = one_more (acquire 0 refl) (
    one_more (load 0 refl) (
      one_more (store 0 0 refl (omega arith)) (
        one_more (release 0 1 refl) (
          one_more (acquire 1 refl) (
            one_more (load 1 refl) (
              one_more (store 1 1 refl (omega arith)) (
                one_more (release 1 2 refl)
                  (one_more (name_it 0 1 refl) (one_more (name_it 1 2 refl) none_more)))))))))

Steps-IsExclusive_example : IsExclusive both_named
Steps-IsExclusive_example = Steps-IsExclusive both_named run

-- Both have read the pid 2.
both_read : (both_named.at 0 ≡ named 1 2) × (both_named.at 1 ≡ named 2 2)
unfolding acquire_once test_and_set load_pid store_pid release_lock lock_clear name_proc
both_read = (refl, refl)
