-- ===== src/Devices/Intq/Bytes.antt =====
-- What `intq_putc` and `intq_getc` do to the queue, and whom they wake.
use mathlib.Core.List.{Perm}
use project2_group.Base.{
  ℕ, ◌+◌, ◌<◌, ◌≡◌, inl, inr, refl, ap, ◌∙◌, subst, Bool, true, false, Option, none, some, List, [],
  ◌∷◌, ◌++◌, ok, ltb, ◌==◌, length, get_or, get_elem?, set, arith, get_or-set_self, length-set,
  get_elem?-eq-get_or, length-append, Bool-cases,
}
use project2_group.Threads.Scheduler.{Kernel, blocked}
use project2_group.Threads.Scheduler.Invariant.{IsValid}
use project2_group.Threads.Scheduler.Yield.{readied}
use project2_group.Threads.Scheduler.Reach.{thread_unblock_lem}
use project2_group.Devices.Intq.{
  Intq, Waiter, at_not_full, at_not_empty, next, intq_empty, intq_full, waiting, set_waiter,
  is_unmet, signal, intq_getc, intq_putc,
}
use project2_group.Devices.Intq.Queue.{IsQueue, Holds-append, Holds-set, empty-test, full-test}

-- A thread that waits is blocked.
abbrev pub IsAsleep : Kernel → Option ℕ → Type 0
IsAsleep k none = Unit {0}
IsAsleep k (some t) = (k.thread t).status ≡ blocked

-- The kernel with the thread that waits, if any, ready and in the ready list, and no other change of the
-- threads and of which runs.
abbrev pub Wakes : Kernel → Option ℕ → Kernel → Type 0
Wakes k none k' = k' ≡ k
Wakes k (some t) k' =
    (k'.current ≡ k.current)
    × (k'.thread ≡ readied k.thread t)
    × Perm k'.ready_list (t ∷ k.ready_list)

no_waiter : (w : Waiter) (q : Intq) → waiting w q ≡ none → q ≡ set_waiter w none q
no_waiter at_not_full q e = ap (λ o. record q { not_full = o }) e
no_waiter at_not_empty q e = ap (λ o. record q { not_empty = o }) e

signal_lem :
    (w : Waiter) (q : Intq) (k : Kernel) (o : Option ℕ)
    → waiting w q ≡ o
    → is_unmet w q ≡ false
    → IsValid k
    → IsAsleep k o
    → (k' : Kernel) × (signal w q k ≡ ok (set_waiter w none q, k')) × IsValid k' × Wakes k o k'
unfolding signal
signal_lem w q k none e m v a = (k, rw (m, e) (ap (λ x. ok (x, k)) (no_waiter w q e)), v, refl)
signal_lem w q k (some t) e m v a =
    let (k', r, v', c, f, p) = thread_unblock_lem t k v a in (k', rw (m, e, r) refl, v', (c, f, p))

-- What `intq_putc` does: it has the thread wait, or it puts the byte into the queue.
abbrev pub Puts : ℕ → Intq → Kernel → List ℕ → Bool → Type 0
Puts byte q k bs true = intq_putc false byte q k ≡ ok (false, q, k)
Puts byte q k bs false =
    (q' : Intq) × (k' : Kernel) × (intq_putc false byte q k ≡ ok (true, q', k'))
    × IsQueue q' (bs ++ byte ∷ [])
    × (q'.not_empty ≡ none)
    × IsValid k'
    × Wakes k q.not_empty k'

-- What `intq_getc` does: it has the thread wait, or it takes the first byte from the queue.
abbrev pub Gets : Intq → Kernel → List ℕ → Type 0
Gets q k [] = intq_getc false q k ≡ ok (none, q, k)
Gets q k (b ∷ bs) =
    (q' : Intq) × (k' : Kernel) × (intq_getc false q k ≡ ok (some b, q', k'))
    × IsQueue q' bs
    × (q'.not_full ≡ none)
    × IsValid k'
    × Wakes k q.not_full k'

-- The byte behind those that are held.
appended-IsQueue :
    (byte : ℕ) (q : Intq) (bs : List ℕ)
    → IsQueue q bs
    → length bs < 63
    → IsQueue (record q { buf = set q.buf q.head byte; head = next q.head }) (bs ++ byte ∷ [])
appended-IsQueue byte q bs w l =
    let t = w.tail_bound in
    let at = w.head_at in
    let size = w.size in
    record {
      size = length-set q.buf q.head byte ∙ size;
      tail_bound = t;
      head_at = omega (arith, length-append bs (byte ∷ []));
      room = omega (arith, length-append bs (byte ∷ []));
      held =
          Holds-append (set q.buf q.head byte) q.tail bs byte t
            (Holds-set q.buf q.tail q.head (length bs) byte bs t w.room (omega arith) at w.held)
            (subst (λ i. get_or (set q.buf q.head byte) i 0 ≡ byte) at
              (get_or-set_self q.buf q.head byte 0 (omega arith)));
    }

dequeued-IsQueue :
    (q : Intq) (b : ℕ) (bs : List ℕ)
    → IsQueue q (b ∷ bs)
    → IsQueue (record q { tail = next q.tail }) bs
dequeued-IsQueue q b bs w =
    let t = w.tail_bound in
    let at = w.head_at in
    let r = w.room in
    record {
      size = w.size;
      tail_bound = omega arith;
      head_at = omega arith;
      room = omega arith;
      held = w.held.1;
    }

-- The waiting threads are no part of what the queue holds.
set_waiter-IsQueue :
    (w : Waiter) (o : Option ℕ) (q : Intq) (bs : List ℕ)
    → IsQueue q bs
    → IsQueue (set_waiter w o q) bs
set_waiter-IsQueue at_not_full o q bs w = record {
  size = w.size;
  tail_bound = w.tail_bound;
  head_at = w.head_at;
  room = w.room;
  held = w.held;
}
set_waiter-IsQueue at_not_empty o q bs w = record {
  size = w.size;
  tail_bound = w.tail_bound;
  head_at = w.head_at;
  room = w.room;
  held = w.held;
}

-- On a queue with the bytes `bs` and a valid kernel in which a thread that waits for the queue not to be empty
-- is blocked: with 63 bytes `intq_putc`, called by a thread, changes nothing and has the thread wait; with
-- fewer it succeeds and leaves a queue with the new byte behind `bs` and with nobody waiting for it not to be
-- empty, and it makes the thread that waited ready and leaves the kernel valid.
pub intq_putc_lem :
    (byte : ℕ) (q : Intq) (k : Kernel) (bs : List ℕ)
    → IsQueue q bs
    → IsValid k
    → IsAsleep k q.not_empty
    → Puts byte q k bs (length bs == 63)
unfolding intq_putc
intq_putc_lem byte q k bs w v a = elim (Bool-cases (length bs == 63)) [
  | inl e ↦ rw (e, full-test q bs w) (rw e refl)
  | inr e ↦
      let r = w.room in
      let l : length bs < 63 = ground arith in
      let w₁ = appended-IsQueue byte q bs w l in
      let t = w.tail_bound in
      let at = w.head_at in
      let size = w.size in
      let fits : ltb q.head (length q.buf) ≡ true = ground arith in
      let q₁ : Intq = record q { buf = set q.buf q.head byte; head = next q.head } in
      let met : intq_empty q₁ ≡ false =
        empty-test q₁ (bs ++ byte ∷ []) w₁ ∙ some_bytes (length-append bs (byte ∷ [])) in
      let (k', z, v', k_w) = signal_lem at_not_empty q₁ k q.not_empty refl met v a in
      rw e (
        record q₁ { not_empty = none },
        k',
        rw (full-test q bs w, e, fits, z) refl,
        set_waiter-IsQueue at_not_empty none q₁ (bs ++ byte ∷ []) w₁,
        refl,
        v',
        k_w,
      )
]
  where
    some_bytes : length (bs ++ byte ∷ []) ≡ length bs + 1 → (length (bs ++ byte ∷ []) == 0) ≡ false
    some_bytes e = rw e (ground arith)

-- On a queue with the bytes `bs` and a valid kernel in which a thread that waits for the queue not to be full
-- is blocked: with no bytes `intq_getc`, called by a thread, changes nothing and has the thread wait;
-- otherwise it returns the first byte and leaves a queue with the others and with nobody waiting for it not to
-- be full, and it makes the thread that waited ready and leaves the kernel valid.
pub intq_getc_lem :
    (q : Intq) (k : Kernel) (bs : List ℕ)
    → IsQueue q bs
    → IsValid k
    → IsAsleep k q.not_full
    → Gets q k bs
unfolding intq_getc
intq_getc_lem q k [] w v a = rw (empty-test q [] w) refl
intq_getc_lem q k (b ∷ bs) w v a =
    let t = w.tail_bound in
    let size = w.size in
    let r = w.room in
    let q₁ : Intq = record q { tail = next q.tail } in
    let w₁ = dequeued-IsQueue q b bs w in
    let byte : get_elem? q.buf q.tail ≡ some b =
      get_elem?-eq-get_or q.buf q.tail 0 (omega arith) ∙ ap some w.held.0 in
    let met : intq_full q₁ ≡ false = full-test q₁ bs w₁ ∙ ground arith in
    let some_byte : intq_empty q ≡ false = empty-test q (b ∷ bs) w ∙ ground arith in
    let (k', z, v', k_w) = signal_lem at_not_full q₁ k q.not_full refl met v a in
    (
      record q₁ { not_full = none },
      k',
      rw (some_byte, byte, z) refl,
      set_waiter-IsQueue at_not_full none q₁ bs w₁,
      refl,
      v',
      k_w,
    )
