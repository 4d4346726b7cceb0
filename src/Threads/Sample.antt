-- ===== src/Threads/Sample.antt =====
-- Five threads, for the tests of threads/thread.c and threads/synch.c.
use project2_group.Base.{ℕ, ◌≡◌, refl, [], ◌∷◌, ◌==◌, if◌then◌else◌, arith}
use project2_group.Threads.Scheduler.{Thread, Status, Kernel, running, ready, blocked}
use project2_group.Threads.Scheduler.Invariant.{IsValid}

abbrev pub a_thread : ℕ → Status → ℕ → Thread
a_thread tid status priority = record {
  tid = tid;
  status = status;
  priority = priority;
  original_priority = priority;
  locks_aq = 0;
}

-- 10 runs, 20 and 30 are ready, 40 is blocked, 50 is the idle thread.
abbrev pub threads : ℕ → Thread
threads t =
    if t == 10
    then a_thread 1 running 31
    else if t == 20
    then a_thread 3 ready 40
    else if t == 30
    then a_thread 4 ready 31
    else if t == 40
    then a_thread 5 blocked 35
    else a_thread 2 blocked 0

abbrev pub kernel : Kernel
kernel = record {
  thread = threads;
  current = 10;
  idle_thread = 50;
  initial_thread = 10;
  ready_list = 20 ∷ 30 ∷ [];
  all_list = 10 ∷ 50 ∷ 20 ∷ 30 ∷ 40 ∷ [];
  thread_ticks = 2;
  freed = [];
}

pub kernel-IsValid : IsValid kernel
kernel-IsValid = record {
  runs = refl;
  alone = alone;
  queue = (refl, (omega arith, tt), ((λ e. omega (arith, e)), tt), (refl, tt, tt, tt));
}
  where
    alone : (t : ℕ) → (threads t).status ≡ running → t ≡ 10
    alone t h = ground arith
