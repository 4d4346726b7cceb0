-- ===== src/Threads/Scheduler.antt =====
-- threads/thread.c: the threads and the scheduler. A `struct thread *` is a number, and the state
-- holds what each of them points to. Interrupts are off in every function here from the point where
-- it changes the state, so each is one step.
pub mod Order
pub mod Invariant
pub mod Yield
pub mod Reach
mod Tests
use project2_group.Base.{
  ℕ, zero, suc, ◌+◌, Bool, true, false, not, Option, none, some, List, [], ◌∷◌, Run, ok, panic,
  ◌>>=◌, ◌>>◌, assert, leb, ltb, ◌==◌, ◌&&◌, if◌then◌else◌,
}
use project2_group.Klib.OrderedList.{
  list_insert_ordered, list_pop_front, list_push_back, list_remove,
}

pub data Status : Type 0 where
  running ready blocked dying : Status

-- `locks_aq` is the length of the list `locksAq`.
pub record Thread : Type 0 where
  pub tid : ℕ
  pub status : Status
  pub priority : ℕ
  pub original_priority : ℕ
  pub locks_aq : ℕ

pub record Kernel : Type 0 where
  pub thread : ℕ → Thread
  pub current : ℕ
  pub idle_thread : ℕ
  pub initial_thread : ℕ
  pub ready_list : List ℕ
  pub all_list : List ℕ
  pub thread_ticks : ℕ
  pub freed : List ℕ

abbrev pub time_slice : ℕ
time_slice = 4

abbrev pub is_status : Status → Status → Bool
is_status running running = true
is_status ready ready = true
is_status blocked blocked = true
is_status dying dying = true
is_status _ _ = false

abbrev pub write_thread : (ℕ → Thread) → ℕ → Thread → ℕ → Thread
write_thread f p t q = if q == p then t else f q

abbrev pub set_status : Kernel → ℕ → Status → Kernel
set_status k p st = record k {
  thread = write_thread k.thread p (record (k.thread p) { status = st });
}

-- Whether `a` is of higher priority than `b`.
abbrev pub prioritycmp : (ℕ → Thread) → ℕ → ℕ → Bool
prioritycmp f a b = if leb (f a).priority (f b).priority then false else true

unfoldable pub thread_unblock : ℕ → Kernel → Run Kernel
thread_unblock t k = do
  assert (is_status (k.thread t).status blocked)
  ok (
      set_status
        (record k { ready_list = list_insert_ordered (prioritycmp k.thread) t k.ready_list }) t
        ready)

-- The next thread, and the ready list without it.
unfoldable pub next_thread_to_run : Kernel → ℕ × List ℕ
next_thread_to_run k = elim (list_pop_front k.ready_list) [
  | none ↦ (k.idle_thread, [])
  | some r ↦ (r.0, r.1)
]

-- `prev` is the thread switched from, if there was a switch.
unfoldable pub thread_schedule_tail : Option ℕ → Kernel → Kernel
thread_schedule_tail prev k =
    let k' = record (set_status k k.current running) { thread_ticks = 0 } in
    elim prev [
      | none ↦ k'
      | some p ↦
          if is_status (k'.thread p).status dying && not (p == k.initial_thread)
          then record k' { freed = p ∷ k'.freed }
          else k'
    ]

unfoldable pub schedule : Kernel → Run Kernel
unfolding next_thread_to_run thread_schedule_tail
schedule k = do
  assert (not (is_status (k.thread k.current).status running))
  let next = next_thread_to_run k
  ok (
      thread_schedule_tail (if k.current == next.0 then none else some k.current)
        (record k { current = next.0; ready_list = next.1 }))

unfoldable pub thread_block : Kernel → Run Kernel
thread_block k = schedule (set_status k k.current blocked)

-- Without the process part of the exit.
unfoldable pub thread_exit : Kernel → Run Kernel
thread_exit k =
    schedule (set_status (record k { all_list = list_remove k.current k.all_list }) k.current dying)

-- The priority that `list_entry (list_begin (&ready_list), …)` finds: on an empty list that is what
-- lies in memory beside the list's tail, `junk`.
abbrev pub front_priority : ℕ → (ℕ → Thread) → List ℕ → ℕ
front_priority junk f [] = junk
front_priority junk f (t ∷ ts) = (f t).priority

unfoldable pub thread_yield : ℕ → Kernel → Run Kernel
thread_yield junk k =
    let queued = list_insert_ordered (prioritycmp k.thread) k.current k.ready_list in
    if ltb (front_priority junk k.thread k.ready_list) (k.thread k.current).priority
    then ok k
    else schedule (
        set_status
          (record k { ready_list = if k.current == k.idle_thread then k.ready_list else queued })
          k.current ready)

unfoldable pub thread_set_priority : ℕ → ℕ → Kernel → Run Kernel
thread_set_priority junk new_priority k =
    let t = k.thread k.current in
    let priority' = if t.locks_aq == 0 then new_priority else t.priority in
    thread_yield junk (record k {
      thread =
          write_thread k.thread k.current
            (record t { priority = priority'; original_priority = new_priority });
    })

-- The tick of the timer: whether the running thread is to yield when the interrupt returns.
unfoldable pub thread_tick : Kernel → Bool × Kernel
thread_tick k =
    (leb time_slice (k.thread_ticks + 1), record k { thread_ticks = k.thread_ticks + 1 })

abbrev pub pri_max : ℕ
pri_max = 63

-- `init_thread` on a zeroed page, and the entry of the thread in `all_list`.
unfoldable pub init_thread : ℕ → ℕ → Kernel → Run Kernel
init_thread t priority k = do
  assert (leb priority pri_max)
  ok (record k {
    thread = write_thread k.thread t (record {
      tid = 0;
      status = blocked;
      priority = priority;
      original_priority = priority;
      locks_aq = 0;
    });
    all_list = list_push_back k.all_list t;
  })

-- `page` is what `palloc_get_page` gives, `tid` what `allocate_tid` does. The stack frames of the new
-- thread and the list of the parent's children are left out. `none` is TID_ERROR.
unfoldable pub thread_create : Option ℕ → ℕ → ℕ → Kernel → Run (Option ℕ × Kernel)
unfolding init_thread
thread_create none tid priority k = ok (none, k)
thread_create (some t) tid priority k = do
  k' ← init_thread t priority k
  k'' ←
      thread_unblock t
        (record k' { thread = write_thread k'.thread t (record (k'.thread t) { tid = tid }) })
  ok (some tid, k'')
