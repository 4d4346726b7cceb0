-- ===== src/Threads/Synch/Fifo.antt =====
-- The threads that sleep on a semaphore are woken in the order in which they came.
use project2_group.Base.{
  ℕ, ◌+◌, ◌^◌, ◌<◌, ◌≡◌, ◌≢◌, inl, inr, refl, sym, ap, ◌∙◌, subst, false, none, some, List, [], ◌∷◌,
  ◌++◌, ok, ◌==◌, if◌then◌else◌, arith, ok-injective, List-cases, length, length-append,
}
use project2_group.Threads.Scheduler.{
  Thread, Kernel, running, ready, blocked, set_status, schedule, thread_block, thread_schedule_tail,
}
use project2_group.Threads.Scheduler.Invariant.{
  IsValid, write_self, write-other, none_runs, schedule_eq, schedule_some, schedule_none,
}
use project2_group.Threads.Scheduler.Order.{Absent, IsQueue}
use project2_group.Threads.Scheduler.Yield.{readied}
use project2_group.Threads.Synch.{Semaphore, sema_down, sema_up}
use project2_group.Threads.Synch.Wakeup.{switch-status, sema_down_sleep, sema_up_wake}

-- A thread that sleeps stays asleep when another one blocks and the switch is not to the idle thread in its place.
thread_block-others :
    (k k' : Kernel) (w : ℕ)
    → IsValid k
    → w ≢ k.idle_thread
    → (k.thread w).status ≡ blocked
    → thread_block k ≡ ok k'
    → (k'.thread w).status ≡ blocked
unfolding thread_block
thread_block-others k k' w v n b e = elim (List-cases k.ready_list) [
  | inl q ↦
      by_switch k.idle_thread [] (λ d. n (sym d))
        (schedule_eq asleep k.idle_thread [] awake (schedule_none asleep q))
  | inr (t, ts, q) ↦
      let head : (k.thread t).status ≡ ready = (subst (IsQueue k.thread) q v.queue).0 in
      by_switch t ts (λ d. let s = ap (λ x. (k.thread x).status) d in cc)
        (schedule_eq asleep t ts awake (schedule_some asleep t ts q))
]
  where
    asleep : Kernel
    asleep = set_status k k.current blocked

    awake : (asleep.thread k.current).status ≢ running
    awake = none_runs k _ v (λ d. cc) k.current

    apart : k.current ≢ w
    apart = λ d. let s = ap (λ x. (k.thread x).status) d in let r = v.runs in cc

    by_switch :
        (t : ℕ) (ts : List ℕ)
        → t ≢ w
        → schedule asleep
          ≡ ok (
              thread_schedule_tail
                (if k.current == t then none else some k.current)
                (record asleep { current = t; ready_list = ts }))
        → (k'.thread w).status ≡ blocked
    by_switch t ts d q =
        subst (λ x. (x.thread w).status ≡ blocked) (ok-injective (sym q ∙ e))
          (switch-status asleep _ w t ts d
            ∙ ap (λ y. y.status)
                (write-other k.thread k.current (record (k.thread k.current) { status = blocked }) w
                  apart)
            ∙ b)

-- The threads are blocked, and none stands in the list twice.
abbrev pub Sleep : (ℕ → Thread) → List ℕ → Type 0
Sleep f [] = Unit {0}
Sleep f (w ∷ ws) = ((f w).status ≡ blocked) × (Absent w ws × Sleep f ws)

-- Calls of `sema_up` one after another: each wakes the first of `ws`, which slept until then, the running thread
-- runs on, and at the end nobody waits.
abbrev pub WakesInOrder : List ℕ → Semaphore → Kernel → Type 0
WakesInOrder [] s k = s.waiters ≡ []
WakesInOrder (w ∷ ws) s k =
    ((k.thread w).status ≡ blocked)
    × ((s' : Semaphore) × ((k' : Kernel) × ((sema_up s k ≡ ok (s', k'))
            × (((k'.thread w).status ≡ ready)
                × (IsValid k' × ((k'.current ≡ k.current) × WakesInOrder ws s' k'))))))

Sleep-readied :
    (f : ℕ → Thread) (w : ℕ) (ws : List ℕ) → Absent w ws → Sleep f ws → Sleep (readied f w) ws
Sleep-readied f w [] a s = tt
Sleep-readied f w (x ∷ ws) (n, a) (b, (c, s)) = (
  ap (λ t. t.status) (write-other f w (record (f w) { status = ready }) x n) ∙ b,
  (c, Sleep-readied f w ws a s),
)

wakes :
    (ws : List ℕ) (s : Semaphore) (k : Kernel)
    → IsValid k
    → s.waiters ≡ ws
    → Sleep k.thread ws
    → s.value + length ws < 2 ^ 32
    → WakesInOrder ws s k
wakes [] s k v e sl h = e
wakes (w ∷ ws) s k v e (b, (a, sl)) h =
    let (k', q, v', c, f, p) = sema_up_wake s k w ws v e b (omega arith) in
    let s' : Semaphore = record { value = s.value + 1; waiters = ws } in
    let awake : (k'.thread w).status ≡ ready =
      rw f (ap (λ y. y.status) (write_self k.thread w (record (k.thread w) { status = ready }))) in
    (
      b,
      (
        s',
        (
          k',
          (
            q,
            (
              awake,
              (
                v',
                (
                  c,
                  wakes ws s' k' v' refl
                      (subst (λ g. Sleep g ws) (sym f) (Sleep-readied k.thread w ws a sl))
                      (omega arith),
                ),
              ),
            ),
          ),
        ),
      ),
    )

Absent-snoc : (p c : ℕ) (ws : List ℕ) → p ≢ c → Absent p ws → Absent p (ws ++ c ∷ [])
Absent-snoc p c [] n a = (n, tt)
Absent-snoc p c (w ∷ ws) n (m, a) = (m, Absent-snoc p c ws n a)

Sleep-after :
    (k k' : Kernel) (ws : List ℕ)
    → IsValid k
    → thread_block k ≡ ok k'
    → Absent k.idle_thread ws
    → (k'.thread k.current).status ≡ blocked
    → Sleep k.thread ws
    → Sleep k'.thread (ws ++ k.current ∷ [])
Sleep-after k k' [] v e i b s = (b, (tt, tt))
Sleep-after k k' (w ∷ ws) v e (n, i) b (c, (a, s)) = (
  thread_block-others k k' w v (λ d. n (sym d)) c e,
  (
    Absent-snoc w k.current ws
        (λ d. let x = ap (λ t. (k.thread t).status) d in let r = v.runs in cc) a,
    Sleep-after k k' ws v e i b s,
  ),
)

-- In a valid state, with a semaphore at 0 whose waiters are asleep, each of them once in the list and none of them the
-- idle thread, and fewer than 2 ^ 32 - 1: a running thread that is not the idle thread goes to sleep in `sema_down`.
-- Then calls of `sema_up` one after another wake the earlier waiters first, in the order in which they came, and that
-- thread last: each call makes exactly the next one ready, which slept until then, and lets the running thread run on.
pub sema_up-sema_down :
    (s : Semaphore) (k : Kernel)
    → IsValid k
    → s.value ≡ 0
    → Sleep k.thread s.waiters
    → Absent k.idle_thread s.waiters
    → k.current ≢ k.idle_thread
    → length s.waiters + 1 < 2 ^ 32
    → (s' : Semaphore) × (k' : Kernel) × (sema_down s k ≡ ok (false, s', k'))
      × IsValid k'
      × WakesInOrder (s.waiters ++ k.current ∷ []) s' k'
sema_up-sema_down s k v z sl i n h =
    let d = sema_down_sleep s k v z n in
    let ws = s.waiters ++ k.current ∷ [] in
    let s' : Semaphore = record { value = 0; waiters = ws } in
    let asleep = Sleep-after k d.0 s.waiters v d.4 i d.5 sl in
    let size = length-append s.waiters (k.current ∷ []) in
    (s', d.0, d.1, d.2, wakes ws s' d.0 d.2 refl asleep (omega arith))
