-- ===== src/Threads/Synch.antt =====
-- threads/synch.c: semaphores and locks. What runs with interrupts off is one function; where the code
-- can be interrupted or sleeps, a function ends and `Step` lets other threads go on.
pub mod Exclusion
pub mod Wakeup
pub mod Fifo
mod Tests
use project2_group.Base.{
  ℕ, ◌+◌, ◌-◌, ◌%◌, ◌^◌, ◌≡◌, Bool, true, false, Option, none, some, List, [], ◌∷◌, Run, ok, ◌>>=◌,
  ◌==◌, if◌then◌else◌,
}
use project2_group.Klib.OrderedList.{list_push_back, list_pop_front}
use project2_group.Threads.Scheduler.{Kernel, thread_block, thread_unblock}
use project2_group.Threads.Scheduler.Reach.{Step}

-- `unsigned`, whose wrap-around at 2 ^ 32 is not reached by the values of locks.
pub record Semaphore : Type 0 where
  pub value : ℕ
  pub waiters : List ℕ

pub record Lock : Type 0 where
  pub holder : Option ℕ
  pub semaphore : Semaphore

unfoldable pub sema_init : ℕ → Semaphore
sema_init value = record { value = value; waiters = [] }

-- The loop of `sema_down` from its test on: the thread goes through, or it queues up and sleeps, and
-- then comes back to the test when it runs again.
unfoldable pub sema_down : Semaphore → Kernel → Run (Bool × Semaphore × Kernel)
sema_down s k =
    if s.value == 0
    then (do
      k' ← thread_block k
      ok (false, record s { waiters = list_push_back s.waiters k.current }, k'))
    else ok (true, record s { value = s.value - 1 }, k)

unfoldable pub sema_try_down : Semaphore → Bool × Semaphore
sema_try_down s = if s.value == 0 then (false, s) else (true, record s { value = s.value - 1 })

unfoldable pub sema_up : Semaphore → Kernel → Run (Semaphore × Kernel)
sema_up s k = elim (list_pop_front s.waiters) [
  | none ↦ ok (record s { value = (s.value + 1) % 2 ^ 32 }, k)
  | some r ↦ (do
    k' ← thread_unblock r.0 k
    ok (record { value = (s.value + 1) % 2 ^ 32; waiters = r.1 }, k'))
]

unfoldable pub lock_init : Lock
unfolding sema_init
lock_init = record { holder = none; semaphore = sema_init 1 }

unfoldable pub lock_held_by_current_thread : Lock → Kernel → Bool
lock_held_by_current_thread l k = elim l.holder [ none ↦ false | some t ↦ t == k.current ]

-- Where a thread is with regard to the lock: in no function of it, in the loop of `sema_down`, past
-- that or past `sema_try_down` with the holder not yet set, between `lock_acquire` and `lock_release`,
-- or in `lock_release` with the semaphore not yet up.
pub data Place : Type 0 where
  outside waiting taken inside releasing : Place

pub record System : Type 0 where
  pub kernel : Kernel
  pub lock : Lock
  pub place : ℕ → Place

abbrev pub go : System → Place → ℕ → Place
go m p t = if t == m.kernel.current then p else m.place t

abbrev pub here : System → Place
here m = m.place m.kernel.current

-- The steps of the running thread in `lock_acquire`, `lock_try_acquire` and `lock_release`, whose
-- ASSERTs are conditions of the steps, and the steps of the scheduler in between.
pub data LockStep (m : System) : System → Type 0 where
  acquire :
      here m ≡ outside
      → lock_held_by_current_thread m.lock m.kernel ≡ false
      → LockStep m (record m { place = go m waiting })
  down :
      (through : Bool) (s : Semaphore) (k : Kernel)
      → here m ≡ waiting
      → sema_down m.lock.semaphore m.kernel ≡ ok (through, s, k)
      → LockStep m (record {
        kernel = k;
        lock = record m.lock { semaphore = s };
        place = go m (if through then taken else waiting);
      })
  try_acquire :
      here m ≡ outside
      → lock_held_by_current_thread m.lock m.kernel ≡ false
      → LockStep m (record m {
        lock = record m.lock { semaphore = (sema_try_down m.lock.semaphore).1 };
        place = go m (if (sema_try_down m.lock.semaphore).0 then taken else outside);
      })
  hold :
      here m ≡ taken
      → LockStep m (record m {
        lock = record m.lock { holder = some m.kernel.current };
        place = go m inside;
      })
  release :
      here m ≡ inside
      → lock_held_by_current_thread m.lock m.kernel ≡ true
      → LockStep m (record m { lock = record m.lock { holder = none }; place = go m releasing })
  up :
      (s : Semaphore) (k : Kernel)
      → here m ≡ releasing
      → sema_up m.lock.semaphore m.kernel ≡ ok (s, k)
      → LockStep m
          (record { kernel = k; lock = record m.lock { semaphore = s }; place = go m outside })
  elsewhere : (k : Kernel) → Step m.kernel k → LockStep m (record m { kernel = k })

-- A lock that has been initialised and that no thread has used.
abbrev pub fresh : Kernel → System
fresh k = record { kernel = k; lock = lock_init; place = λ t. outside }

pub data LockReach (m : System) : System → Type 0 where
  begin : LockReach m m
  then_step : (m' m'' : System) → LockReach m m' → LockStep m' m'' → LockReach m m''
