-- ===== src/Threads/Scheduler/Invariant.antt =====
-- The scheduler's invariant and the operations that keep it.
use project2_group.Base.{
  ℕ, ◌≡◌, ◌≢◌, refl, sym, ap, ◌∙◌, subst, inl, inr, false, Option, none, some, List, [], ◌∷◌, Run,
  ok, ◌==◌, if◌then◌else◌, arith, Bool-cases, not, ◌&&◌, ==_iff, bool_clash, List-cases,
}
use project2_group.Klib.OrderedList.{list_pop_front}
use project2_group.Threads.Scheduler.{
  Thread, Status, Kernel, running, ready, blocked, dying, write_thread, set_status, is_status,
  next_thread_to_run, thread_schedule_tail, schedule, thread_block, thread_exit,
}
use project2_group.Threads.Scheduler.Order.{
  Under, Under-congr, Absent, IsQueue, Absent-of_not_ready, IsQueue-write,
}

-- One thread runs, the current one, and the ready list is a queue of ready threads.
pub record IsValid (k : Kernel) : Type 0 where
  pub runs : (k.thread k.current).status ≡ running
  pub alone : (t : ℕ) → (k.thread t).status ≡ running → t ≡ k.current
  pub queue : IsQueue k.thread k.ready_list

-- The state in which `schedule` is called: no thread runs.
pub record IsSwitching (k : Kernel) : Type 0 where
  pub idle : (t : ℕ) → (k.thread t).status ≢ running
  pub queue : IsQueue k.thread k.ready_list

-- No ready thread has a higher priority than the running one.
abbrev pub IsHighest : Kernel → Type 0
IsHighest k = Under k.thread (k.thread k.current).priority k.ready_list

-- The state is the outcome, keeps the invariant, and runs a thread of the highest priority.
pub record Runs (r : Run Kernel) : Type 0 where
  pub after : Kernel
  pub returns : r ≡ ok after
  pub valid : IsValid after
  pub highest : IsHighest after

pub write_self : (f : ℕ → Thread) (p : ℕ) (x : Thread) → write_thread f p x p ≡ x
write_self f p x = ground arith

pub write-other : (f : ℕ → Thread) (p : ℕ) (x : Thread) (t : ℕ) → p ≢ t → write_thread f p x t ≡ f t
write-other f p x t h = ground arith

running≢ready : running ≢ ready
running≢ready e = cc

pub not_running : (s : Status) → s ≢ running → is_status s running ≡ false
not_running running h = absurd (h refl)
not_running ready h = refl
not_running blocked h = refl
not_running dying h = refl

module _ (k : Kernel) where
  abbrev pub resumed : ℕ → Thread
  resumed = (set_status k k.current running).thread

  pub tail-keeps :
      (prev : Option ℕ)
      → ((thread_schedule_tail prev k).thread ≡ resumed)
        × ((thread_schedule_tail prev k).current ≡ k.current)
        × ((thread_schedule_tail prev k).ready_list ≡ k.ready_list)
  unfolding thread_schedule_tail
  tail-keeps none = (refl, refl, refl)
  tail-keeps (some p) =
      elim (Bool-cases (is_status (resumed p).status dying && not (p == k.initial_thread))) [
        | inl h ↦ rw h (refl, refl, refl)
        | inr h ↦ rw h (refl, refl, refl)
      ]

  resumed-priority : (t : ℕ) → (resumed t).priority ≡ (k.thread t).priority
  resumed-priority t = elim (Bool-cases (t == k.current)) [
    | inl h ↦ rw (h, (==_iff t k.current).0 h) refl
    | inr h ↦ rw h refl
  ]

  resumed_self : (resumed k.current).status ≡ running
  resumed_self = ap (λ t. t.status) (write_self k.thread k.current _)

  resumed-alone :
      ((t : ℕ) → (k.thread t).status ≢ running)
      → (t : ℕ) → (resumed t).status ≡ running
      → t ≡ k.current
  resumed-alone h t r = elim (Bool-cases (t == k.current)) [
    | inl e ↦ (==_iff t k.current).0 e
    | inr e ↦ absurd (
        h t (
          subst
            (λ b.
              (if b then record (k.thread k.current) { status = running } else k.thread t).status
              ≡ running)
            e r))
  ]

-- Completing a switch to a thread that is not in the queue gives a valid state.
pub tail-IsValid :
    (prev : Option ℕ) (k : Kernel)
    → ((t : ℕ) → (k.thread t).status ≢ running)
    → IsQueue k.thread k.ready_list
    → Absent k.current k.ready_list
    → Under k.thread (k.thread k.current).priority k.ready_list
    → IsValid (thread_schedule_tail prev k) × IsHighest (thread_schedule_tail prev k)
tail-IsValid prev k h q a u =
    let (e, e', e'') = tail-keeps k prev in
    (
      record {
        runs = rw (e, e') (resumed_self k);
        alone = rw (e, e') (resumed-alone k h);
        queue = rw (e, e'') (IsQueue-write k.thread k.current _ k.ready_list a q);
      },
      rw (e, e', e'', resumed-priority k k.current)
          (Under-congr k.thread (resumed k) _ k.ready_list (resumed-priority k) u),
    )

pub schedule_some :
    (k : Kernel) (t : ℕ) (ts : List ℕ) → k.ready_list ≡ t ∷ ts → next_thread_to_run k ≡ (t, ts)
unfolding next_thread_to_run list_pop_front
schedule_some k t ts e = rw e refl

pub schedule_none : (k : Kernel) → k.ready_list ≡ [] → next_thread_to_run k ≡ (k.idle_thread, [])
unfolding next_thread_to_run list_pop_front
schedule_none k e = rw e refl

pub schedule_eq :
    (k : Kernel) (t : ℕ) (ts : List ℕ)
    → (k.thread k.current).status ≢ running
    → next_thread_to_run k ≡ (t, ts)
    → schedule k
      ≡ ok (
          thread_schedule_tail
            (if k.current == t then none else some k.current)
            (record k { current = t; ready_list = ts }))
unfolding schedule
schedule_eq k t ts h e = rw (not_running (k.thread k.current).status h, e) refl

switch-Runs :
    (k : Kernel) (t : ℕ) (ts : List ℕ)
    → next_thread_to_run k ≡ (t, ts)
    → ((u : ℕ) → (k.thread u).status ≢ running)
    → IsQueue k.thread ts
    → Absent t ts
    → Under k.thread (k.thread t).priority ts
    → Runs (schedule k)
switch-Runs k t ts e h q a u =
    let prev = if k.current == t then none else some k.current in
    let (v, w) = tail-IsValid prev (record k { current = t; ready_list = ts }) h q a u in
    record { after = _; returns = schedule_eq k t ts (h k.current) e; valid = v; highest = w }

-- With no thread running, `schedule` runs the head of the queue, or the idle thread.
pub schedule-Runs :
    (k : Kernel)
    → ((t : ℕ) → (k.thread t).status ≢ running)
    → IsQueue k.thread k.ready_list
    → Runs (schedule k)
schedule-Runs k h q = elim (List-cases k.ready_list) [
  | inl e ↦ switch-Runs k k.idle_thread [] (schedule_none k e) h tt tt tt
  | inr (t, ts, e) ↦
      let p = subst (IsQueue k.thread) e q in
      switch-Runs k t ts (schedule_some k t ts e) h p.3 p.2 p.1
]

-- Once the current thread has another status, no thread runs.
pub none_runs :
    (k : Kernel) (x : Thread)
    → IsValid k
    → x.status ≢ running
    → (t : ℕ) → (write_thread k.thread k.current x t).status ≢ running
none_runs k x v h t = elim (Bool-cases (t == k.current)) [
  | inl e ↦ rw e h
  | inr e ↦ rw e (λ r. bool_clash e ((==_iff t k.current).1 (v.alone t r)))
]

-- The current thread is not in the queue.
pub current-Absent : (k : Kernel) → IsValid k → Absent k.current k.ready_list
current-Absent k v =
    Absent-of_not_ready k.thread k.current k.ready_list (λ e. running≢ready (sym v.runs ∙ e))
      v.queue

-- From a valid state, blocking the running thread succeeds, gives a valid state, and the thread that
-- then runs has a priority no lower than that of any ready thread.
pub thread_block-Runs : (k : Kernel) → IsValid k → Runs (thread_block k)
unfolding thread_block
thread_block-Runs k v =
    schedule-Runs (set_status k k.current blocked) (none_runs k _ v (λ e. cc))
      (IsQueue-write k.thread k.current _ k.ready_list (current-Absent k v) v.queue)

-- The same holds of the exit of the running thread.
pub thread_exit-Runs : (k : Kernel) → IsValid k → Runs (thread_exit k)
unfolding thread_exit
thread_exit-Runs k v =
    schedule-Runs (set_status (record k { all_list = _ }) k.current dying)
      (none_runs k _ v (λ e. cc))
      (IsQueue-write k.thread k.current _ k.ready_list (current-Absent k v) v.queue)
