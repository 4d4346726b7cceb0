-- ===== src/Threads/Scheduler/Tests.antt =====
-- Runs of the scheduler.
use mathlib.Core.List.{Perm}
use project2_group.Base.{ℕ, ◌≡◌, refl, some, List, [], ◌∷◌, ◌++◌, ok, arith}
use project2_group.Klib.OrderedList.{list_insert_ordered, list_pop_front}
use project2_group.Threads.Scheduler.{
  Kernel, running, ready, prioritycmp, write_thread, thread_unblock, thread_block, thread_yield,
  thread_set_priority, thread_create, schedule, next_thread_to_run, thread_schedule_tail,
}
use project2_group.Threads.Sample.{a_thread, threads, kernel, kernel-IsValid}
use project2_group.Threads.Scheduler.Order.{insert-Splits, Below, Reaches}
use project2_group.Threads.Scheduler.Invariant.{IsValid, Runs, thread_block-Runs}
use project2_group.Threads.Scheduler.Yield.{readied, thread_yield-Runs, thread_yield-perm}
use project2_group.Threads.Scheduler.Reach.{
  thread_unblock_lem, thread_set_priority-Runs, thread_create_lem, Reach, Reach-IsValid, start,
  next, yielded,
}

-- A yield runs 20, which has the highest priority, and queues 10 behind 30, which has its priority.
yield_test :
    thread_yield 0 kernel
    ≡ ok (record kernel {
      thread =
          write_thread (write_thread threads 10 (a_thread 1 ready 31)) 20 (a_thread 3 running 40);
      current = 20;
      ready_list = 30 ∷ 10 ∷ [];
      thread_ticks = 0;
    })
unfolding thread_yield schedule next_thread_to_run thread_schedule_tail list_insert_ordered
    list_pop_front
yield_test = refl

insert-Splits_test :
    (before after : List ℕ) × ((20 ∷ 30 ∷ []) ≡ before ++ after)
    × (list_insert_ordered (prioritycmp threads) 40 (20 ∷ 30 ∷ []) ≡ before ++ 40 ∷ after)
    × Reaches threads 35 before
    × Below threads 35 after
insert-Splits_test = insert-Splits threads 40 (20 ∷ 30 ∷ []) kernel-IsValid.queue

thread_block-Runs_test : Runs (thread_block kernel)
thread_block-Runs_test = thread_block-Runs kernel kernel-IsValid

thread_yield-Runs_example : Runs (thread_yield 7 kernel)
thread_yield-Runs_example = thread_yield-Runs 7 kernel kernel-IsValid

thread_yield-perm_test :
    (k' : Kernel) × (thread_yield 7 kernel ≡ ok k')
    × Perm (k'.current ∷ k'.ready_list) (10 ∷ 20 ∷ 30 ∷ [])
thread_yield-perm_test = thread_yield-perm 7 kernel kernel-IsValid (λ e. omega (arith, e))

thread_unblock_lem_test :
    (k' : Kernel) × (thread_unblock 40 kernel ≡ ok k')
    × IsValid k'
    × (k'.current ≡ 10)
    × (k'.thread ≡ readied threads 40)
    × Perm k'.ready_list (40 ∷ 20 ∷ 30 ∷ [])
thread_unblock_lem_test = thread_unblock_lem 40 kernel kernel-IsValid refl

thread_set_priority-Runs_test : Runs (thread_set_priority 7 12 kernel)
thread_set_priority-Runs_test = thread_set_priority-Runs 7 12 kernel kernel-IsValid

thread_create_lem_test :
    (k' : Kernel) × (thread_create (some 60) 6 33 kernel ≡ ok (some 6, k'))
    × IsValid k'
    × (k'.current ≡ 10)
    × (k'.thread 60 ≡ a_thread 6 ready 33)
    × Perm k'.ready_list (60 ∷ 20 ∷ 30 ∷ [])
thread_create_lem_test =
    thread_create_lem 60 6 33 kernel kernel-IsValid
      ((λ e. omega (arith, e)), ((λ e. omega (arith, e)), ((λ e. omega (arith, e)), tt)))
      (omega arith)

abbrev yielded_kernel : Kernel
yielded_kernel = thread_yield-Runs_example.after

reached : Reach kernel yielded_kernel
reached =
    next kernel yielded_kernel start (yielded 7 yielded_kernel thread_yield-Runs_example.returns)

Reach-IsValid_example : IsValid yielded_kernel
Reach-IsValid_example = Reach-IsValid kernel yielded_kernel kernel-IsValid reached
