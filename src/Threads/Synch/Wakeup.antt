-- ===== src/Threads/Synch/Wakeup.antt =====
-- Sleeping on a semaphore and being woken.
use mathlib.Core.List.{Perm}
use project2_group.Base.{
  ℕ, ◌+◌, ◌%◌, ◌^◌, ◌<◌, ◌≡◌, ◌≢◌, inl, inr, refl, sym, ap, ◌∙◌, subst, false, Option, none, some,
  List, [], ◌∷◌, ◌++◌, ok, ◌==◌, if◌then◌else◌, arith, ok-injective, List-cases,
}
use project2_group.Klib.OrderedList.{list_push_back, list_pop_front}
use project2_group.Threads.Scheduler.{
  Kernel, running, blocked, set_status, schedule, thread_block, thread_schedule_tail,
}
use project2_group.Threads.Scheduler.Invariant.{
  IsValid, IsHighest, write_self, write-other, none_runs, current-Absent, thread_block-Runs,
  schedule_eq, schedule_some, schedule_none, tail-keeps,
}
use project2_group.Threads.Scheduler.Order.{Absent}
use project2_group.Threads.Scheduler.Yield.{readied}
use project2_group.Threads.Scheduler.Reach.{thread_unblock_lem}
use project2_group.Threads.Synch.{Semaphore, sema_down, sema_up}

-- A switch from a thread to another one leaves the status of the first.
pub switch-status :
    (k : Kernel) (prev : Option ℕ) (c t : ℕ) (ts : List ℕ)
    → t ≢ c
    → ((thread_schedule_tail prev (record k { current = t; ready_list = ts })).thread c).status
      ≡ (k.thread c).status
switch-status k prev c t ts n =
    let (e, _, _) = tail-keeps (record k { current = t; ready_list = ts }) prev in
    rw (e, write-other k.thread t (record (k.thread t) { status = running }) c n) refl

-- A thread that is not the idle thread is blocked once `thread_block` has switched to another.
pub thread_block-status :
    (k k' : Kernel)
    → IsValid k
    → k.current ≢ k.idle_thread
    → thread_block k ≡ ok k'
    → (k'.thread k.current).status ≡ blocked
unfolding thread_block
thread_block-status k k' v n e = elim (List-cases k.ready_list) [
  | inl q ↦
      by_switch k.idle_thread [] (λ d. n (sym d))
        (schedule_eq asleep k.idle_thread [] awake (schedule_none asleep q))
  | inr (t, ts, q) ↦
      by_switch t ts (λ d. (subst (Absent k.current) q (current-Absent k v)).0 (sym d))
        (schedule_eq asleep t ts awake (schedule_some asleep t ts q))
]
  where
    asleep : Kernel
    asleep = set_status k k.current blocked

    awake : (asleep.thread k.current).status ≢ running
    awake = none_runs k _ v (λ d. cc) k.current

    by_switch :
        (t : ℕ) (ts : List ℕ)
        → t ≢ k.current
        → schedule asleep
          ≡ ok (
              thread_schedule_tail
                (if k.current == t then none else some k.current)
                (record asleep { current = t; ready_list = ts }))
        → (k'.thread k.current).status ≡ blocked
    by_switch t ts d q =
        subst (λ x. (x.thread k.current).status ≡ blocked) (ok-injective (sym q ∙ e))
          (switch-status asleep _ k.current t ts d
            ∙ ap (λ y. y.status)
                (write_self k.thread k.current (record (k.thread k.current) { status = blocked })))

-- In a valid state, with a semaphore at 0: a thread that is not the idle thread and enters the loop of
-- `sema_down` goes to sleep, behind those that wait already, and leaves a valid state in which the running
-- thread has a priority no lower than that of any ready thread.
pub sema_down_sleep :
    (s : Semaphore) (k : Kernel)
    → IsValid k
    → s.value ≡ 0
    → k.current ≢ k.idle_thread
    → (k' : Kernel) × (sema_down s k
        ≡ ok (false, record { value = 0; waiters = s.waiters ++ k.current ∷ [] }, k'))
      × IsValid k'
      × IsHighest k'
      × (thread_block k ≡ ok k')
      × ((k'.thread k.current).status ≡ blocked)
unfolding sema_down list_push_back
sema_down_sleep s k v z n =
    let r = thread_block-Runs k v in
    (
      r.after,
      rw (z, r.returns) refl,
      r.valid,
      r.highest,
      r.returns,
      thread_block-status k r.after v n r.returns,
    )

-- In a valid state, with blocked threads waiting on a semaphore that does not overflow: `sema_up` counts up and
-- wakes the thread that has waited longest, which becomes ready; the others wait on, the running thread
-- runs on, and the state stays valid.
pub sema_up_wake :
    (s : Semaphore) (k : Kernel) (w : ℕ) (ws : List ℕ)
    → IsValid k
    → s.waiters ≡ w ∷ ws
    → (k.thread w).status ≡ blocked
    → s.value + 1 < 2 ^ 32
    → (k' : Kernel) × (sema_up s k ≡ ok (record { value = s.value + 1; waiters = ws }, k'))
      × IsValid k'
      × (k'.current ≡ k.current)
      × (k'.thread ≡ readied k.thread w)
      × Perm k'.ready_list (w ∷ k.ready_list)
unfolding sema_up list_pop_front
sema_up_wake s k w ws v e b h =
    let (k', q, v', c, f, p) = thread_unblock_lem w k v b in
    let small : (s.value + 1) % 2 ^ 32 ≡ s.value + 1 = omega arith in
    (k', rw (e, q, small) refl, v', c, f, p)
