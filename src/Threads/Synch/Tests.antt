-- ===== src/Threads/Synch/Tests.antt =====
-- Runs of semaphores and of a lock.
use mathlib.Core.List.{Perm}
use project2_group.Base.{
  ℕ, ◌≡◌, ◌↔◌, refl, true, false, none, some, [], ◌∷◌, ok, arith, ◌==◌, if◌then◌else◌,
}
use project2_group.Klib.OrderedList.{list_pop_front, list_insert_ordered}
use project2_group.Threads.Scheduler.{
  Kernel, ready, blocked, thread_block, thread_unblock, write_thread,
}
use project2_group.Threads.Scheduler.Invariant.{IsValid, IsHighest}
use project2_group.Threads.Scheduler.Yield.{readied}
use project2_group.Threads.Sample.{threads, kernel, kernel-IsValid, a_thread}
use project2_group.Threads.Synch.{
  Semaphore, sema_down, sema_up, sema_init, lock_init, lock_held_by_current_thread, Place, outside,
  waiting, taken, inside, System, go, here, acquire, down, hold, fresh, LockReach, begin, then_step,
}
use project2_group.Threads.Synch.Exclusion.{critical, mutual_exclusion}
use project2_group.Threads.Synch.Wakeup.{sema_down_sleep, sema_up_wake}
use project2_group.Threads.Synch.Fifo.{WakesInOrder, sema_up-sema_down}

abbrev closed : Semaphore
closed = record { value = 0; waiters = [] }

abbrev awaited : Semaphore
awaited = record { value = 0; waiters = 40 ∷ [] }

-- 40 has waited; after the up the ready list has it between 20 and 30.
up_test :
    sema_up awaited kernel
    ≡ ok (
      record { value = 1; waiters = [] },
      record kernel {
        thread = write_thread threads 40 (a_thread 5 ready 35);
        ready_list = 20 ∷ 40 ∷ 30 ∷ [];
      },
    )
unfolding sema_up list_pop_front thread_unblock list_insert_ordered
up_test = refl

sema_down_sleep_test :
    (k' : Kernel) × (sema_down awaited kernel
      ≡ ok (false, record { value = 0; waiters = 40 ∷ 10 ∷ [] }, k'))
    × IsValid k'
    × IsHighest k'
    × (thread_block kernel ≡ ok k')
    × ((k'.thread 10).status ≡ blocked)
sema_down_sleep_test = sema_down_sleep awaited kernel kernel-IsValid refl (λ e. omega (arith, e))

sema_up_wake_test :
    (k' : Kernel) × (sema_up awaited kernel ≡ ok (record { value = 1; waiters = [] }, k'))
    × IsValid k'
    × (k'.current ≡ 10)
    × (k'.thread ≡ readied threads 40)
    × Perm k'.ready_list (40 ∷ 20 ∷ 30 ∷ [])
sema_up_wake_test = sema_up_wake awaited kernel 40 [] kernel-IsValid refl refl (omega arith)

-- 40 has waited, and 10 comes after it.
sema_up-sema_down_example :
    (s' : Semaphore) × (k' : Kernel) × (sema_down awaited kernel ≡ ok (false, s', k'))
    × IsValid k'
    × WakesInOrder (40 ∷ 10 ∷ []) s' k'
sema_up-sema_down_example =
    sema_up-sema_down awaited kernel kernel-IsValid refl (refl, (tt, tt))
      ((λ e. omega (arith, e)), tt) (λ e. omega (arith, e)) (omega arith)

-- Thread 10 acquires the lock.
abbrev at_10 : Place → ℕ → Place
at_10 p t = if t == 10 then p else outside

abbrev asked : System
asked = record { kernel = kernel; lock = lock_init; place = at_10 waiting }

abbrev let_in : System
let_in = record {
  kernel = kernel;
  lock = record { holder = none; semaphore = closed };
  place = go asked taken;
}

abbrev held : System
held = record {
  kernel = kernel;
  lock = record { holder = some 10; semaphore = closed };
  place = go let_in inside;
}

reach-held : LockReach (fresh kernel) held
unfolding lock_init sema_init sema_down lock_held_by_current_thread
reach-held =
    then_step let_in held
      (then_step asked let_in (then_step (fresh kernel) asked begin (acquire refl refl))
        (down true closed kernel refl refl))
      (hold refl)

mutual_exclusion_example :
    ((t u : ℕ) → critical (held.place t) ≡ true → critical (held.place u) ≡ true → t ≡ u)
    × ((lock_held_by_current_thread held.lock kernel ≡ true) ↔ (here held ≡ inside))
mutual_exclusion_example = mutual_exclusion kernel held reach-held
