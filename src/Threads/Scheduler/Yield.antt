-- ===== src/Threads/Scheduler/Yield.antt =====
-- What `thread_yield` does to the queue and to the running thread.
use mathlib.Core.List.{Perm}
use mathlib.Core.List.Perm
use project2_group.Base.{
  ℕ, ◌≡◌, ◌≢◌, refl, sym, ap, subst, inl, inr, Bool, true, false, none, some, List, [], ◌∷◌, ok,
  ◌==◌, if◌then◌else◌, arith, Bool-cases, ltb, ==_iff, List-cases, ne_test, ◌⊎◌,
}
use project2_group.Klib.OrderedList.{list_insert_ordered}
use project2_group.Threads.Scheduler.{
  Thread, Kernel, running, ready, prioritycmp, write_thread, set_status, schedule, thread_yield,
  front_priority,
}
use project2_group.Threads.Scheduler.Order.{
  Under, Under-mono, Absent, IsQueue, IsQueue-write, insert-congr, insert-IsQueue, insert-perm,
  insert-ne_nil,
}
use project2_group.Threads.Scheduler.Invariant.{
  IsValid, Runs, write_self, schedule-Runs, none_runs, current-Absent, schedule_eq, schedule_some,
  tail-keeps,
}

abbrev pub readied : (ℕ → Thread) → ℕ → ℕ → Thread
readied f p = write_thread f p (record (f p) { status = ready })

-- Giving a thread the status `ready` changes no priority.
readied-priority : (f : ℕ → Thread) (p u : ℕ) → (f u).priority ≡ (readied f p u).priority
readied-priority f p u = elim (Bool-cases (u == p)) [
  | inl e ↦ rw (e, (==_iff u p).0 e) refl
  | inr e ↦ rw e refl
]

-- A thread outside the queue that becomes ready and is inserted leaves a queue.
pub enqueue-IsQueue :
    (f : ℕ → Thread) (p : ℕ) (ts : List ℕ)
    → Absent p ts
    → IsQueue f ts
    → IsQueue (readied f p) (list_insert_ordered (prioritycmp f) p ts)
enqueue-IsQueue f p ts a q =
    subst (IsQueue (readied f p)) (sym (insert-congr f (readied f p) p ts (readied-priority f p))) (
      insert-IsQueue (readied f p) p ts (ap (λ t. t.status) (write_self f p _)) a
        (IsQueue-write f p _ ts a q))

yield-IsQueue :
    (b : Bool) (f : ℕ → Thread) (p : ℕ) (ts : List ℕ)
    → Absent p ts
    → IsQueue f ts
    → IsQueue (readied f p) (if b then ts else list_insert_ordered (prioritycmp f) p ts)
yield-IsQueue true f p ts a q = IsQueue-write f p _ ts a q
yield-IsQueue false f p ts a q = enqueue-IsQueue f p ts a q

yield_highest :
    (junk : ℕ) (f : ℕ → Thread) (n : ℕ) (ts : List ℕ)
    → ltb (front_priority junk f ts) n ≡ true
    → IsQueue f ts
    → Under f n ts
yield_highest junk f n [] h q = tt
yield_highest junk f n (t ∷ ts) h q =
    (ground arith, Under-mono f (f t).priority n ts (ground arith) q.1)

-- From a valid state, `thread_yield` succeeds, whatever lies in memory beside the ready list. It gives a valid
-- state, in which the running thread has a priority no lower than that of any ready thread.
pub thread_yield-Runs : (junk : ℕ) (k : Kernel) → IsValid k → Runs (thread_yield junk k)
unfolding thread_yield
thread_yield-Runs junk k v =
    elim (Bool-cases
      (ltb (front_priority junk k.thread k.ready_list) (k.thread k.current).priority)) [
        | inl h ↦ rw h (record {
          after = k;
          returns = refl;
          valid = v;
          highest = yield_highest junk k.thread _ k.ready_list h v.queue;
        })
        | inr h ↦ rw h (
            schedule-Runs _ (none_runs k _ v (λ e. cc)) (
              yield-IsQueue (k.current == k.idle_thread) k.thread k.current k.ready_list
                (current-Absent k v) v.queue))
      ]

-- A schedule with a queue that is not empty takes its head.
schedule_head :
    (k : Kernel) (t : ℕ) (ts : List ℕ)
    → (k.thread k.current).status ≢ running
    → k.ready_list ≡ t ∷ ts
    → (k' : Kernel) × (schedule k ≡ ok k') × (k'.current ≡ t) × (k'.ready_list ≡ ts)
schedule_head k t ts h e =
    let prev = if k.current == t then none else some k.current in
    let (_, e', e'') = tail-keeps (record k { current = t; ready_list = ts }) prev in
    (_, schedule_eq k t ts h (schedule_some k t ts e), e', e'')

-- A yield of a thread other than the idle thread loses no thread: the running thread and the ready
-- ones are, up to order, the same before and after.
pub thread_yield-perm :
    (junk : ℕ) (k : Kernel)
    → IsValid k
    → k.current ≢ k.idle_thread
    → (k' : Kernel) × (thread_yield junk k ≡ ok k')
      × Perm (k'.current ∷ k'.ready_list) (k.current ∷ k.ready_list)
unfolding thread_yield
thread_yield-perm junk k v h =
    elim (Bool-cases
      (ltb (front_priority junk k.thread k.ready_list) (k.thread k.current).priority)) [
        | inl e ↦ rw e (k, refl, Perm.refl _)
        | inr e ↦
            rw (e, ne_test k.current k.idle_thread h)
              (switched
                (List-cases (list_insert_ordered (prioritycmp k.thread) k.current k.ready_list)))
      ]
  where
    queued : List ℕ
    queued = list_insert_ordered (prioritycmp k.thread) k.current k.ready_list

    switched :
        (queued ≡ []) ⊎ ((t : ℕ) × (ts : List ℕ) × (queued ≡ t ∷ ts))
        → (k' : Kernel) × (schedule (set_status (record k { ready_list = queued }) k.current ready)
            ≡ ok k')
          × Perm (k'.current ∷ k'.ready_list) (k.current ∷ k.ready_list)
    switched (inl e) = absurd (insert-ne_nil k.thread k.current k.ready_list e)
    switched (inr (t, ts, e)) =
        let (k', r, c, l) =
          schedule_head (set_status (record k { ready_list = queued }) k.current ready) t ts
            (none_runs k _ v (λ e. cc) k.current) e in
        (
          k',
          r,
          rw (c, l)
              (subst (λ us. Perm us (k.current ∷ k.ready_list)) e
                (insert-perm k.thread k.current k.ready_list)),
        )
