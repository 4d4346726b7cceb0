-- ===== src/Klib/Links.antt =====
-- lib/kernel/list.c: the links of lists in memory. A `struct list_elem *` is its address, with 0 for the null
-- pointer, and a `struct list *` the addresses of its two ends. Memory holds the links at every address but
-- the null pointer, where an access is a fault. The functions that take no list element are on the lists' ends.
pub mod Chain
pub mod Surgery
pub mod Lists
pub mod Operations
pub mod Queue
pub mod Loops
pub mod Refinement
mod Tests
use project2_group.Base.{
  ℕ, zero, suc, ◌+◌, Bool, true, false, not, Run, ok, fault, out_of_fuel, ◌>>=◌, ◌>>◌, assert, ◌==◌,
  ◌&&◌, ◌||◌, if◌then◌else◌,
}

pub record Memory : Type 0 where
  pub prev : ℕ → ℕ
  pub next : ℕ → ℕ

-- The two `struct list_elem`s of a `struct list`.
pub record Ends : Type 0 where
  pub head : ℕ
  pub tail : ℕ

abbrev pub updated : ℕ → ℕ → (ℕ → ℕ) → ℕ → ℕ
updated p v links q = if q == p then v else links q

unfoldable pub get_prev : Memory → ℕ → Run ℕ
get_prev h p = if p == 0 then fault else ok (h.prev p)

unfoldable pub get_next : Memory → ℕ → Run ℕ
get_next h p = if p == 0 then fault else ok (h.next p)

-- `p->prev = v` and `p->next = v`.
unfoldable pub set_prev : Memory → ℕ → ℕ → Run Memory
set_prev h p v = if p == 0 then fault else ok (record h { prev = updated p v h.prev })

unfoldable pub set_next : Memory → ℕ → ℕ → Run Memory
set_next h p v = if p == 0 then fault else ok (record h { next = updated p v h.next })

abbrev pub is_head : Memory → ℕ → Bool
is_head h elem = not (elem == 0) && (h.prev elem == 0) && not (h.next elem == 0)

abbrev pub is_interior : Memory → ℕ → Bool
is_interior h elem = not (elem == 0) && not (h.prev elem == 0) && not (h.next elem == 0)

abbrev pub is_tail : Memory → ℕ → Bool
is_tail h elem = not (elem == 0) && not (h.prev elem == 0) && (h.next elem == 0)

unfoldable pub list_init : Memory → Ends → Run Memory
list_init h list = do
  h₁ ← set_prev h list.head 0
  h₂ ← set_next h₁ list.head list.tail
  h₃ ← set_prev h₂ list.tail list.head
  set_next h₃ list.tail 0

abbrev pub list_begin : Memory → Ends → Run ℕ
list_begin h list = get_next h list.head

unfoldable pub list_next : Memory → ℕ → Run ℕ
list_next h elem = assert (is_head h elem || is_interior h elem) >> get_next h elem

abbrev pub list_end : Ends → ℕ
list_end list = list.tail

unfoldable pub list_prev : Memory → ℕ → Run ℕ
list_prev h elem = assert (is_interior h elem || is_tail h elem) >> get_prev h elem

-- The four assignments at the end of `list_insert` and of `list_splice`, which put FIRST through LAST before
-- BEFORE.
unfoldable pub link : Memory → ℕ → ℕ → ℕ → Run Memory
link h before first last = do
  p ← get_prev h before
  h₁ ← set_prev h first p
  h₂ ← set_next h₁ last before
  p' ← get_prev h₂ before
  h₃ ← set_next h₂ p' first
  set_prev h₃ before last

-- The two assignments of `list_remove` and of `list_splice` that take out FIRST through LAST.
unfoldable pub unlink : Memory → ℕ → ℕ → Run Memory
unlink h first last = do
  p ← get_prev h first
  n ← get_next h last
  h₁ ← set_next h p n
  n' ← get_next h₁ last
  p' ← get_prev h₁ first
  set_prev h₁ n' p'

unfoldable pub list_insert : Memory → ℕ → ℕ → Run Memory
list_insert h before elem =
    assert (is_interior h before || is_tail h before)
    >> assert (not (elem == 0))
    >> link h before elem elem

unfoldable pub list_splice : Memory → ℕ → ℕ → ℕ → Run Memory
list_splice h before first last =
    assert (is_interior h before || is_tail h before)
    >> (if first == last then ok h else (do
      last' ← list_prev h last
      assert (is_interior h first)
          >> assert (is_interior h last')
          >> (unlink h first last' >>= λ h₁. link h₁ before first last')))

-- The element that followed, and the memory.
unfoldable pub list_remove : Memory → ℕ → Run (ℕ × Memory)
list_remove h elem =
    assert (is_interior h elem) >> (do h₁ ← unlink h elem elem; n ← get_next h₁ elem; ok (n, h₁))

unfoldable pub list_push_front : Memory → Ends → ℕ → Run Memory
list_push_front h list elem = list_begin h list >>= λ b. list_insert h b elem

unfoldable pub list_push_back : Memory → Ends → ℕ → Run Memory
list_push_back h list elem = list_insert h (list_end list) elem

unfoldable pub list_empty : Memory → Ends → Run Bool
list_empty h list = do b ← list_begin h list; ok (b == list_end list)

unfoldable pub list_front : Memory → Ends → Run ℕ
list_front h list = do e ← list_empty h list; assert (not e) >> get_next h list.head

unfoldable pub list_back : Memory → Ends → Run ℕ
list_back h list = do e ← list_empty h list; assert (not e) >> get_prev h list.tail

unfoldable pub list_pop_front : Memory → Ends → Run (ℕ × Memory)
list_pop_front h list = do front ← list_front h list; (_, h₁) ← list_remove h front; ok (front, h₁)

unfoldable pub list_pop_back : Memory → Ends → Run (ℕ × Memory)
list_pop_back h list = do back ← list_back h list; (_, h₁) ← list_remove h back; ok (back, h₁)

-- The loop of `list_size`.
unfoldable pub size_loop : ℕ → Memory → Ends → ℕ → ℕ → Run ℕ
size_loop zero h list e cnt = out_of_fuel
size_loop (suc fuel) h list e cnt =
    let rest = list_next h e >>= λ e'. size_loop fuel h list e' (cnt + 1) in
    if e == list_end list then ok cnt else rest

-- `fuel` is to be more than the number of elements.
unfoldable pub list_size : ℕ → Memory → Ends → Run ℕ
list_size fuel h list = list_begin h list >>= λ e. size_loop fuel h list e 0

-- The loop of `list_insert_ordered`, and the insertion before the element at which it ends.
unfoldable pub insert_loop : (ℕ → ℕ → Bool) → ℕ → Memory → Ends → ℕ → ℕ → Run Memory
insert_loop less zero h list elem e = out_of_fuel
insert_loop less (suc fuel) h list elem e =
    let rest = list_next h e >>= λ e'. insert_loop less fuel h list elem e' in
    if e == list_end list
    then list_insert h e elem
    else if less elem e
    then list_insert h e elem
    else rest

-- `fuel` is to be more than the number of elements.
unfoldable pub list_insert_ordered : (ℕ → ℕ → Bool) → ℕ → Memory → Ends → ℕ → Run Memory
list_insert_ordered less fuel h list elem =
    list_begin h list >>= λ e. insert_loop less fuel h list elem e
