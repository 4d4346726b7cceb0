-- ===== src/Devices/Intq/Queue.antt =====
-- The ring as a queue of at most 63 bytes.
use project2_group.Base.{
  ℕ, ◌+◌, ◌%◌, ◌-◌, ◌<◌, ◌≤◌, ◌≡◌, ◌≢◌, ◌∙◌, subst, List, [], ◌∷◌, ◌++◌, ◌==◌, length, get_or, set,
  arith, get_or-set_ne,
}
use project2_group.Devices.Intq.{Intq, next, intq_empty, intq_full}

-- From the position `t` on, round the ring, the buffer holds the bytes.
abbrev pub Holds : List ℕ → ℕ → List ℕ → Type 0
Holds buf t [] = Unit {0}
Holds buf t (b ∷ bs) = (get_or buf t 0 ≡ b) × Holds buf (next t) bs

-- The queue holds the bytes, the oldest first.
pub record IsQueue (q : Intq) (bs : List ℕ) : Type 0 where
  pub size : length q.buf ≡ 64
  pub tail_bound : q.tail < 64
  pub head_at : q.head ≡ (q.tail + length bs) % 64
  pub room : length bs < 64
  pub held : Holds q.buf q.tail bs

-- A byte behind those that are held.
pub Holds-append :
    (buf : List ℕ) (t : ℕ) (bs : List ℕ) (b : ℕ)
    → t < 64
    → Holds buf t bs
    → get_or buf ((t + length bs) % 64) 0 ≡ b
    → Holds buf t (bs ++ b ∷ [])
Holds-append buf t [] b l h e = (subst (λ i. get_or buf i 0 ≡ b) (omega arith) e, tt)
Holds-append buf t (x ∷ bs) b l (h, hs) e = (
  h,
  Holds-append buf (next t) bs b (omega arith) hs (subst (λ i. get_or buf i 0 ≡ b) (omega arith) e),
)

-- A store outside the bytes that are held, `d` positions from the first.
pub Holds-set :
    (buf : List ℕ) (t i d v : ℕ) (bs : List ℕ)
    → t < 64
    → d < 64
    → length bs ≤ d
    → i ≡ (t + d) % 64
    → Holds buf t bs
    → Holds (set buf i v) t bs
Holds-set buf t i d v [] l l' n e h = tt
Holds-set buf t i d v (b ∷ bs) l l' n e (h, hs) =
    let apart : i ≢ t = λ z. omega arith in
    (
      get_or-set_ne buf i t v 0 apart ∙ h,
      Holds-set buf (next t) i (d - 1) v bs (omega arith) (omega arith) (omega arith) (omega arith)
          hs,
    )

pub empty-test : (q : Intq) (bs : List ℕ) → IsQueue q bs → intq_empty q ≡ (length bs == 0)
unfolding intq_empty
empty-test q bs w = let h = w.head_at in let t = w.tail_bound in let r = w.room in ground arith

pub full-test : (q : Intq) (bs : List ℕ) → IsQueue q bs → intq_full q ≡ (length bs == 63)
unfolding intq_full
full-test q bs w = let h = w.head_at in let t = w.tail_bound in let r = w.room in ground arith
