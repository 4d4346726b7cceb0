-- ===== src/Threads/Scheduler/Reach.antt =====
-- Unblocking, priorities and new threads, and the states that the scheduler can reach.
use mathlib.Core.List.{Perm}
use project2_group.Base.{
  ℕ, ◌≤◌, ◌≡◌, ◌≢◌, refl, sym, ap, ◌∙◌, subst, inl, inr, true, Option, none, some, ◌∷◌, Run, ok,
  leb, ◌==◌, if◌then◌else◌, Bool-cases, assert, ==_iff, le→leb, ok-injective, >>=-eq-ok,
  assert-eq-ok, leb→le,
}
use project2_group.Klib.OrderedList.{list_push_back}
use project2_group.Threads.Scheduler.{
  Thread, Status, Kernel, running, ready, blocked, dying, write_thread, is_status, thread_unblock,
  thread_block, thread_exit, thread_yield, thread_set_priority, thread_create, init_thread,
  thread_tick, pri_max,
}
use project2_group.Threads.Scheduler.Order.{Absent, Absent-of_not_ready, IsQueue-write, insert-perm}
use project2_group.Threads.Scheduler.Invariant.{
  IsValid, Runs, write_self, write-other, current-Absent, thread_block-Runs, thread_exit-Runs,
}
use project2_group.Threads.Scheduler.Yield.{readied, enqueue-IsQueue, thread_yield-Runs}

-- A write to a thread that is neither current nor in the queue, and does not make it run.
other-write-IsValid :
    (k : Kernel) (t : ℕ) (x : Thread)
    → IsValid k
    → t ≢ k.current
    → Absent t k.ready_list
    → x.status ≢ running
    → IsValid (record k { thread = write_thread k.thread t x })
other-write-IsValid k t x v n a h = record {
  runs = ap (λ y. y.status) (write-other k.thread t x k.current n) ∙ v.runs;
  alone = alone;
  queue = IsQueue-write k.thread t x k.ready_list a v.queue;
}
  where
    alone : (u : ℕ) → (write_thread k.thread t x u).status ≡ running → u ≡ k.current
    alone u r = elim (Bool-cases (u == t)) [
      | inl e ↦ absurd (h (subst (λ b. (if b then x else k.thread u).status ≡ running) e r))
      | inr e ↦ v.alone u (subst (λ b. (if b then x else k.thread u).status ≡ running) e r)
    ]

-- A write to the current thread that leaves it running.
current-write-IsValid :
    (k : Kernel) (x : Thread)
    → IsValid k
    → x.status ≡ running
    → IsValid (record k { thread = write_thread k.thread k.current x })
current-write-IsValid k x v h = record {
  runs = ap (λ y. y.status) (write_self k.thread k.current x) ∙ h;
  alone = alone;
  queue = IsQueue-write k.thread k.current x k.ready_list (current-Absent k v) v.queue;
}
  where
    alone : (u : ℕ) → (write_thread k.thread k.current x u).status ≡ running → u ≡ k.current
    alone u r = elim (Bool-cases (u == k.current)) [
      | inl e ↦ (==_iff u k.current).0 e
      | inr e ↦ v.alone u (subst (λ b. (if b then x else k.thread u).status ≡ running) e r)
    ]

-- A blocked thread is neither current nor in the queue.
blocked-apart :
    (t : ℕ) (k : Kernel)
    → IsValid k
    → (k.thread t).status ≡ blocked
    → (t ≢ k.current) × Absent t k.ready_list
blocked-apart t k v h = (
  λ e. clash (sym h ∙ ap (λ u. (k.thread u).status) e ∙ v.runs),
  Absent-of_not_ready k.thread t k.ready_list (λ e. clash' (sym h ∙ e)) v.queue,
)
  where
    clash : blocked ≢ running
    clash e = cc

    clash' : blocked ≢ ready
    clash' e = cc

-- Unblocking a blocked thread of a valid state succeeds: the state stays valid, the running thread
-- runs on, the thread is ready with nothing else of it changed, the other threads are as before, and
-- the ready list has gained it and nothing else.
pub thread_unblock_lem :
    (t : ℕ) (k : Kernel)
    → IsValid k
    → (k.thread t).status ≡ blocked
    → (k' : Kernel) × (thread_unblock t k ≡ ok k')
      × IsValid k'
      × (k'.current ≡ k.current)
      × (k'.thread ≡ readied k.thread t)
      × Perm k'.ready_list (t ∷ k.ready_list)
unfolding thread_unblock
thread_unblock_lem t k v h =
    let (n, a) = blocked-apart t k v h in
    let w = other-write-IsValid k t (record (k.thread t) { status = ready }) v n a (λ e. cc) in
    rw h (
      _,
      refl,
      record {
        runs = w.runs;
        alone = w.alone;
        queue = enqueue-IsQueue k.thread t k.ready_list a v.queue;
      },
      refl,
      refl,
      insert-perm k.thread t k.ready_list,
    )

-- `thread_set_priority` of a valid state succeeds and gives a valid state, in which the running thread
-- has a priority no lower than that of any ready thread.
pub thread_set_priority-Runs :
    (junk new_priority : ℕ) (k : Kernel)
    → IsValid k
    → Runs (thread_set_priority junk new_priority k)
unfolding thread_set_priority
thread_set_priority-Runs junk new_priority k v =
    thread_yield-Runs junk _ (current-write-IsValid k _ v v.runs)

-- Whether `palloc_get_page` may return the page: it holds no thread that runs or is ready.
abbrev pub IsFresh : ℕ → Kernel → Type 0
IsFresh t k = (t ≢ k.current) × Absent t k.ready_list

abbrev born : ℕ → ℕ → ℕ → Thread
born tid priority locks = record {
  tid = tid;
  status = blocked;
  priority = priority;
  original_priority = priority;
  locks_aq = locks;
}

-- The state in which `thread_create` calls `thread_unblock`.
abbrev named : ℕ → ℕ → ℕ → Kernel → Kernel
named t tid priority k =
    let f = write_thread k.thread t (born 0 priority 0) in
    record k {
      thread = write_thread f t (record (f t) { tid = tid });
      all_list = list_push_back k.all_list t;
    }

named-thread :
    (t tid priority : ℕ) (k : Kernel) → (named t tid priority k).thread t ≡ born tid priority 0
named-thread t tid priority k =
    let f = write_thread k.thread t (born 0 priority 0) in
    write_self f t _
    ∙ ap {A = Thread} {B = Thread} (λ y. record y { tid = tid })
        (write_self k.thread t (born 0 priority 0))

named-IsValid :
    (t tid priority : ℕ) (k : Kernel) → IsValid k → IsFresh t k → IsValid (named t tid priority k)
named-IsValid t tid priority k v (n, a) =
    let f = write_thread k.thread t (born 0 priority 0) in
    let w = other-write-IsValid k t (born 0 priority 0) v n a (λ e. cc) in
    let w' =
      other-write-IsValid (record k { thread = f }) t (record (f t) { tid = tid }) w n a
        (λ e. clash (sym (ap (λ y. y.status) (write_self k.thread t (born 0 priority 0))) ∙ e)) in
    record { runs = w'.runs; alone = w'.alone; queue = w'.queue }
  where
    clash : blocked ≢ running
    clash e = cc

-- A thread of priority 0 to 63 made on a fresh page in a valid state: `thread_create` succeeds with the
-- thread's identifier, the state stays valid, the running thread runs on, and the ready list has
-- gained the new thread, which is ready with the priority asked for, and nothing else.
pub thread_create_lem :
    (t tid priority : ℕ) (k : Kernel)
    → IsValid k
    → IsFresh t k
    → priority ≤ pri_max
    → (k' : Kernel) × (thread_create (some t) tid priority k ≡ ok (some tid, k'))
      × IsValid k'
      × (k'.current ≡ k.current)
      × (k'.thread t ≡ record {
        tid = tid;
        status = ready;
        priority = priority;
        original_priority = priority;
        locks_aq = 0;
      })
      × Perm k'.ready_list (t ∷ k.ready_list)
unfolding thread_create init_thread
thread_create_lem t tid priority k v (n, a) h =
    let (k', e, w, c, f, p) =
      thread_unblock_lem t (named t tid priority k) (named-IsValid t tid priority k v (n, a))
        (ap (λ y. y.status) (named-thread t tid priority k)) in
    rw (le→leb priority pri_max h, e)
      (
        k',
        refl,
        w,
        c,
        rw (f, write_self (named t tid priority k).thread t _, named-thread t tid priority k) refl,
        p,
      )

-- What the kernel's threads and the timer can do to the scheduler: `junk` is what lies beside the ready list,
-- and a new thread is on a fresh page.
pub data Step (k : Kernel) : Kernel → Type 0 where
  block : (k' : Kernel) → thread_block k ≡ ok k' → Step k k'
  exit : (k' : Kernel) → thread_exit k ≡ ok k' → Step k k'
  yielded : (junk : ℕ) (k' : Kernel) → thread_yield junk k ≡ ok k' → Step k k'
  set : (junk p : ℕ) (k' : Kernel) → thread_set_priority junk p k ≡ ok k' → Step k k'
  unblock : (t : ℕ) (k' : Kernel) → thread_unblock t k ≡ ok k' → Step k k'
  create :
      (o : Option ℕ) (tid p : ℕ) (r : Option ℕ) (k' : Kernel)
      → ((t : ℕ) → o ≡ some t → IsFresh t k)
      → thread_create o tid p k ≡ ok (r, k')
      → Step k k'
  tick : Step k (thread_tick k).1

pub data Reach (k : Kernel) : Kernel → Type 0 where
  start : Reach k k
  next : (k' k'' : Kernel) → Reach k k' → Step k' k'' → Reach k k''

from_Runs : (r : Run Kernel) (k' : Kernel) → Runs r → r ≡ ok k' → IsValid k'
from_Runs r k' w e = subst IsValid (ok-injective (sym w.returns ∙ e)) w.valid

is_blocked : (s : Status) → is_status s blocked ≡ true → s ≡ blocked
is_blocked running e = cc
is_blocked ready e = cc
is_blocked blocked e = refl
is_blocked dying e = cc

unblock-blocked :
    (t : ℕ) (k k' : Kernel) → thread_unblock t k ≡ ok k' → (k.thread t).status ≡ blocked
unfolding thread_unblock
unblock-blocked t k k' e =
    is_blocked _ (assert-eq-ok _ (>>=-eq-ok (assert (is_status (k.thread t).status blocked)) _ e).1)

unblock-step : (t : ℕ) (k k' : Kernel) → IsValid k → thread_unblock t k ≡ ok k' → IsValid k'
unblock-step t k k' v e =
    let (k'', e', w, _, _, _) = thread_unblock_lem t k v (unblock-blocked t k k' e) in
    subst IsValid (ok-injective (sym e' ∙ e)) w

create-priority :
    (t tid p : ℕ) (r : Option ℕ) (k k' : Kernel)
    → thread_create (some t) tid p k ≡ ok (r, k')
    → p ≤ pri_max
unfolding thread_create init_thread
create-priority t tid p r k k' e =
    let (_, e', _) = >>=-eq-ok (init_thread t p k) _ e in
    leb→le p pri_max (assert-eq-ok _ (>>=-eq-ok (assert (leb p pri_max)) _ e').1)

create-step :
    (o : Option ℕ) (tid p : ℕ) (r : Option ℕ) (k k' : Kernel)
    → IsValid k
    → ((t : ℕ) → o ≡ some t → IsFresh t k)
    → thread_create o tid p k ≡ ok (r, k')
    → IsValid k'
unfolding thread_create
create-step none tid p r k k' v h e = subst IsValid (ap (λ x. x.1) (ok-injective e)) v
create-step (some t) tid p r k k' v h e =
    let (k'', e', w, _, _, _) =
      thread_create_lem t tid p k v (h t refl) (create-priority t tid p r k k' e) in
    subst IsValid (ap (λ x. x.1) (ok-injective (sym e' ∙ e))) w

pub Step-IsValid : (k k' : Kernel) → IsValid k → Step k k' → IsValid k'
unfolding thread_tick
Step-IsValid k _ v (block k' e) = from_Runs _ k' (thread_block-Runs k v) e
Step-IsValid k _ v (exit k' e) = from_Runs _ k' (thread_exit-Runs k v) e
Step-IsValid k _ v (yielded junk k' e) = from_Runs _ k' (thread_yield-Runs junk k v) e
Step-IsValid k _ v (set junk p k' e) = from_Runs _ k' (thread_set_priority-Runs junk p k v) e
Step-IsValid k _ v (unblock t k' e) = unblock-step t k k' v e
Step-IsValid k _ v (create o tid p r k' h e) = create-step o tid p r k k' v h e
Step-IsValid k _ v tick = record { runs = v.runs; alone = v.alone; queue = v.queue }

-- In every state that the scheduler reaches from a valid one exactly one thread runs, the current
-- one, and the ready list holds ready threads only, each once, in the order of their priorities.
pub Reach-IsValid : (k k' : Kernel) → IsValid k → Reach k k' → IsValid k'
Reach-IsValid k _ v start = v
Reach-IsValid k _ v (next k' k'' r s) = Step-IsValid k' k'' (Reach-IsValid k k' v r) s
