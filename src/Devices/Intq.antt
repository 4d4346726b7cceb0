-- ===== src/Devices/Intq.antt =====
-- devices/intq.c: the ring of bytes between threads and interrupt handlers. Interrupts are off in all of its functions.
-- The loops of `intq_getc` and `intq_putc` end a round where the thread is to take the queue's lock, of
-- threads/synch.c, and to wait; the lock lets one thread at a time do so.
pub mod Queue
pub mod Bytes
mod Tests
use project2_group.Base.{
  ℕ, ◌+◌, ◌%◌, Bool, true, false, not, Option, none, some, List, Run, ok, ◌>>=◌, ◌>>◌, assert,
  deref, ltb, ◌==◌, if◌then◌else◌, get_elem?, set, length, fault,
}
use project2_group.Threads.Scheduler.{Kernel, thread_block, thread_unblock}

abbrev pub intq_bufsize : ℕ
intq_bufsize = 64

pub record Intq : Type 0 where
  pub not_full : Option ℕ
  pub not_empty : Option ℕ
  pub buf : List ℕ
  pub head : ℕ
  pub tail : ℕ

-- The address of the member `not_full` or `not_empty`.
pub data Waiter : Type 0 where
  at_not_full at_not_empty : Waiter

abbrev pub next : ℕ → ℕ
next pos = (pos + 1) % intq_bufsize

-- The buffer holds what was in memory.
unfoldable pub intq_init : List ℕ → Intq
intq_init junk = record { not_full = none; not_empty = none; buf = junk; head = 0; tail = 0 }

unfoldable pub intq_empty : Intq → Bool
intq_empty q = q.head == q.tail

unfoldable pub intq_full : Intq → Bool
intq_full q = next q.head == q.tail

abbrev pub waiting : Waiter → Intq → Option ℕ
waiting at_not_full q = q.not_full
waiting at_not_empty q = q.not_empty

abbrev pub set_waiter : Waiter → Option ℕ → Intq → Intq
set_waiter at_not_full t q = record q { not_full = t }
set_waiter at_not_empty t q = record q { not_empty = t }

-- The condition that a thread waits for does not hold yet.
abbrev pub is_unmet : Waiter → Intq → Bool
is_unmet at_not_full q = intq_full q
is_unmet at_not_empty q = intq_empty q

-- `intr_context` says whether an interrupt is being handled.
unfoldable pub wait : Bool → Waiter → Intq → Kernel → Run (Intq × Kernel)
wait intr_context waiter q k =
    assert (not intr_context)
    >> assert (is_unmet waiter q)
    >> (thread_block k >>= λ k'. ok (set_waiter waiter (some k.current) q, k'))

unfoldable pub signal : Waiter → Intq → Kernel → Run (Intq × Kernel)
signal waiter q k = assert (not (is_unmet waiter q)) >> elim (waiting waiter q) [
  | none ↦ ok (q, k)
  | some t ↦ (thread_unblock t k >>= λ k'. ok (set_waiter waiter none q, k'))
]

-- From the test of the loop on: `none` is that the thread is to wait.
unfoldable pub intq_getc : Bool → Intq → Kernel → Run (Option ℕ × Intq × Kernel)
intq_getc intr_context q k =
    if intq_empty q then (assert (not intr_context) >> ok (none, q, k)) else (do
      byte ← deref (get_elem? q.buf q.tail)
      (q', k') ← signal at_not_full (record q { tail = next q.tail }) k
      ok (some byte, q', k'))

-- A store to the buffer.
abbrev pub store_byte : Intq → ℕ → Run Intq
store_byte q byte =
    if ltb q.head (length q.buf)
    then ok (record q { buf = set q.buf q.head byte; head = next q.head })
    else fault

-- `false` is that the thread is to wait.
unfoldable pub intq_putc : Bool → ℕ → Intq → Kernel → Run (Bool × Intq × Kernel)
intq_putc intr_context byte q k =
    if intq_full q
    then (assert (not intr_context) >> ok (false, q, k))
    else (do q' ← store_byte q byte; (q'', k') ← signal at_not_empty q' k; ok (true, q'', k'))
