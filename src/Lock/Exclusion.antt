-- ===== src/Lock/Exclusion.antt =====
-- kernel/include/lock.h and kernel/proc.c: one call at a time is inside the lock, and no two calls get
-- the same pid.
use silkware.Base.{
  ℕ, ◌≤◌, ◌≡◌, refl, inl, inr, Bool, true, false, Option, none, some, arith, Bool-cases,
}
use silkware.Lock.{
  Stage, waiting, inside, loaded, counted, released, named, Shared, acquire_once, load_pid,
  store_pid, release_lock, name_proc, Step, acquire, load, store, release, name_it, lock_clear,
  test_and_set, Steps, none_more, one_more, start_state,
}

-- Between `ACQUIRE` and `RELEASE`.
abbrev pub critical : Stage → Bool
critical waiting = false
critical inside = true
critical (loaded x) = true
critical (counted pid) = true
critical (released pid) = false
critical (named pid seen) = false

-- The pid that a call got, and the one that it read again.
abbrev pub pid_of : Stage → Option ℕ
pid_of waiting = none
pid_of inside = none
pid_of (loaded x) = none
pid_of (counted pid) = some pid
pid_of (released pid) = some pid
pid_of (named pid seen) = some pid

-- What holds of every state.
pub record IsExclusive (s : Shared) : Type 0 where
  pub alone : (t u : ℕ) → critical (s.at t) ≡ true → critical (s.at u) ≡ true → t ≡ u
  pub locked : (t : ℕ) → critical (s.at t) ≡ true → s.held ≡ true
  pub owned : s.held ≡ true → (t : ℕ) × (critical (s.at t) ≡ true)
  pub current : (t x : ℕ) → s.at t ≡ loaded x → x ≡ s.pid_cur
  pub low : (t pid : ℕ) → pid_of (s.at t) ≡ some pid → pid ≤ s.pid_cur
  pub distinct : (t u pid : ℕ) → pid_of (s.at t) ≡ some pid → pid_of (s.at u) ≡ some pid → t ≡ u
  pub above : (t pid seen : ℕ) → s.at t ≡ named pid seen → pid ≤ seen

start-IsExclusive : IsExclusive start_state
start-IsExclusive = record {
  alone = λ t u p q. absurd (ground arith);
  locked = λ t p. absurd (ground arith);
  owned = λ p. absurd (ground arith);
  current = λ t x p. absurd (ground arith);
  low = λ t pid p. absurd (ground arith);
  distinct = λ t u pid p q. absurd (ground arith);
  above = λ t pid seen p. absurd (ground arith);
}

module _ (s : Shared) (is : IsExclusive s) (t : ℕ) where
  load-IsExclusive : s.at t ≡ inside → IsExclusive (load_pid t s)
  unfolding load_pid
  load-IsExclusive e = record {
    alone = λ u v p q. ground (arith, is.alone u v, is.alone t u, is.alone t v);
    locked = λ u p. ground (arith, is.locked u, is.locked t);
    owned = λ p. (t, ground arith);
    current = λ u x p. ground (arith, is.current u x);
    low = λ u pid p. ground (arith, is.low u pid);
    distinct = λ u v pid p q. ground (arith, is.distinct u v pid);
    above = λ u pid seen p. ground (arith, is.above u pid seen);
  }

  store-IsExclusive : (x : ℕ) → s.at t ≡ loaded x → IsExclusive (store_pid t x s)
  unfolding store_pid
  store-IsExclusive x e = record {
    alone = λ u v p q. ground (arith, is.alone u v, is.alone t u, is.alone t v);
    locked = λ u p. ground (arith, is.locked u, is.locked t);
    owned = λ p. (t, ground arith);
    current = λ u y p. ground (arith, is.current u y, is.alone t u);
    low = λ u pid p. ground (arith, is.low u pid, is.current t x);
    distinct = λ u v pid p q.
        ground (arith, is.distinct u v pid, is.low u pid, is.low v pid, is.current t x);
    above = λ u pid seen p. ground (arith, is.above u pid seen);
  }

  release-IsExclusive : (pid : ℕ) → s.at t ≡ counted pid → IsExclusive (release_lock t pid s)
  unfolding release_lock lock_clear
  release-IsExclusive n e = record {
    alone = λ u v p q. ground (arith, is.alone u v);
    locked = λ u p. ground (arith, is.alone t u);
    owned = λ p. absurd (ground arith);
    current = λ u y p. ground (arith, is.current u y);
    low = λ u pid p. ground (arith, is.low u pid, is.low t pid);
    distinct = λ u v pid p q. ground (arith, is.distinct u v pid);
    above = λ u pid seen p. ground (arith, is.above u pid seen);
  }

  name-IsExclusive : (pid : ℕ) → s.at t ≡ released pid → IsExclusive (name_proc t pid s)
  unfolding name_proc
  name-IsExclusive n e = record {
    alone = λ u v p q. ground (arith, is.alone u v);
    locked = λ u p. ground (arith, is.locked u);
    owned = λ p. let (u, h) = is.owned p in (u, ground arith);
    current = λ u y p. ground (arith, is.current u y);
    low = λ u pid p. ground (arith, is.low u pid, is.low t pid);
    distinct = λ u v pid p q. ground (arith, is.distinct u v pid);
    above = λ u pid seen p. ground (arith, is.above u pid seen, is.low t n);
  }

  acquire-IsExclusive : s.at t ≡ waiting → IsExclusive (acquire_once t s)
  unfolding acquire_once test_and_set
  acquire-IsExclusive e = elim (Bool-cases s.held) [
    | inl taken ↦ rw taken (record {
      alone = is.alone;
      locked = λ u p. refl;
      owned = λ p. is.owned taken;
      current = is.current;
      low = is.low;
      distinct = is.distinct;
      above = is.above;
    })
    | inr clear ↦ rw clear (record {
      alone = λ u v p q. ground (arith, is.locked u, is.locked v);
      locked = λ u p. refl;
      owned = λ p. (t, ground arith);
      current = λ u y p. ground (arith, is.current u y);
      low = λ u pid p. ground (arith, is.low u pid);
      distinct = λ u v pid p q. ground (arith, is.distinct u v pid);
      above = λ u pid seen p. ground (arith, is.above u pid seen);
    })
  ]

Step-IsExclusive : {s s' : Shared} → Step s s' → IsExclusive s → IsExclusive s'
Step-IsExclusive {s} (acquire t e) is = acquire-IsExclusive s is t e
Step-IsExclusive {s} (load t e) is = load-IsExclusive s is t e
Step-IsExclusive {s} (store t x e h) is = store-IsExclusive s is t x e
Step-IsExclusive {s} (release t pid e) is = release-IsExclusive s is t pid e
Step-IsExclusive {s} (name_it t pid e) is = name-IsExclusive s is t pid e

Steps-kept : {s s' : Shared} → Steps s s' → IsExclusive s → IsExclusive s'
Steps-kept none_more is = is
Steps-kept (one_more first rest) is = Steps-kept rest (Step-IsExclusive first is)

-- After any steps of any calls of proc_new, on any CPUs and in any order, in which pid_cur does not
-- wrap round: the flag of the lock is set exactly while a call is between ACQUIRE and RELEASE, which
-- is one call at most; the value of pid_cur that it read there is still the current one; each call
-- that got a pid got one that is at most pid_cur and that no other call got; and what it reads behind
-- the lock is that pid or a greater number.
pub Steps-IsExclusive : (s : Shared) → Steps start_state s → IsExclusive s
Steps-IsExclusive s steps = Steps-kept steps start-IsExclusive
