-- ===== src/Klib/Links/Chain.antt =====
-- Doubly linked segments in memory: the addresses of a segment, and what assignments to links do to it.
use project2_group.Base.{ℕ, ◌≡◌, ◌≢◌, refl, sym, ◌∙◌, List, [], ◌∷◌, ◌++◌, ne_test, ==_iff}
use project2_group.Klib.Links.{Memory, updated}

-- The address is not in the list.
abbrev pub Absent : ℕ → List ℕ → Type 0
Absent p [] = Unit {0}
Absent p (x ∷ xs) = (x ≢ p) × Absent p xs

abbrev pub Distinct : List ℕ → Type 0
Distinct [] = Unit {0}
Distinct (x ∷ xs) = Absent x xs × Distinct xs

-- The lists have no element in common.
abbrev pub Apart : List ℕ → List ℕ → Type 0
Apart [] ys = Unit {0}
Apart (x ∷ xs) ys = Absent x ys × Apart xs ys

-- `a` and the elements of `xs` are linked in this order, with `p` before and `n` behind them.
abbrev pub Chain : Memory → ℕ → ℕ → List ℕ → ℕ → Type 0
Chain h p a [] n = (h.prev a ≡ p) × (h.next a ≡ n)
Chain h p a (x ∷ xs) n = (h.prev a ≡ p) × (h.next a ≡ x) × Chain h a x xs n

-- The last of `a` and the elements of `xs`.
abbrev pub last : ℕ → List ℕ → ℕ
last a [] = a
last a (x ∷ xs) = last x xs

abbrev pub put_prev : ℕ → ℕ → Memory → Memory
put_prev p v h = record h { prev = updated p v h.prev }

abbrev pub put_next : ℕ → ℕ → Memory → Memory
put_next p v h = record h { next = updated p v h.next }

pub put_self : (p v : ℕ) (links : ℕ → ℕ) → updated p v links p ≡ v
put_self p v links = rw ((==_iff p p).1 refl) refl

pub put_other : (p v q : ℕ) (links : ℕ → ℕ) → q ≢ p → updated p v links q ≡ links q
put_other p v q links d = rw (ne_test q p d) refl

pub Absent-append : (p : ℕ) (xs ys : List ℕ) → Absent p (xs ++ ys) → Absent p xs × Absent p ys
Absent-append p [] ys d = (tt, d)
Absent-append p (x ∷ xs) ys (d, ds) = let r = Absent-append p xs ys ds in ((d, r.0), r.1)

pub append-Absent : (p : ℕ) (xs ys : List ℕ) → Absent p xs → Absent p ys → Absent p (xs ++ ys)
append-Absent p [] ys d e = e
append-Absent p (x ∷ xs) ys (d, ds) e = (d, append-Absent p xs ys ds e)

pub Distinct-append :
    (xs ys : List ℕ) → Distinct (xs ++ ys) → Distinct xs × Distinct ys × Apart xs ys
Distinct-append [] ys d = (tt, d, tt)
Distinct-append (x ∷ xs) ys (d, ds) =
    let (x_xs, x_ys) = Absent-append x xs ys d in
    let (a, b, c) = Distinct-append xs ys ds in ((x_xs, a), b, (x_ys, c))

pub append-Distinct :
    (xs ys : List ℕ) → Distinct xs → Distinct ys → Apart xs ys → Distinct (xs ++ ys)
append-Distinct [] ys a b c = b
append-Distinct (x ∷ xs) ys (x_xs, a) b (x_ys, c) =
    (append-Absent x xs ys x_xs x_ys, append-Distinct xs ys a b c)

pub Apart-append : (xs ys zs : List ℕ) → Apart xs (ys ++ zs) → Apart xs ys × Apart xs zs
Apart-append [] ys zs a = (tt, tt)
Apart-append (x ∷ xs) ys zs (a, as') =
    let (l, r) = Absent-append x ys zs a in
    let (ls, rs) = Apart-append xs ys zs as' in ((l, ls), (r, rs))

pub append-Apart : (xs ys zs : List ℕ) → Apart xs ys → Apart xs zs → Apart xs (ys ++ zs)
append-Apart [] ys zs a b = tt
append-Apart (x ∷ xs) ys zs (a, as') (b, bs) =
    (append-Absent x ys zs a b, append-Apart xs ys zs as' bs)

-- What one address is not, seen from the other side.
pub Apart-head : (x : ℕ) (xs ys : List ℕ) → Apart xs (x ∷ ys) → Absent x xs × Apart xs ys
Apart-head x [] ys a = (tt, tt)
Apart-head x (z ∷ xs) ys ((d, a), as') =
    let (b, c) = Apart-head x xs ys as' in ((λ e. d (sym e), b), (a, c))

pub head-Apart : (x : ℕ) (xs ys : List ℕ) → Absent x xs → Apart xs ys → Apart xs (x ∷ ys)
head-Apart x [] ys a b = tt
head-Apart x (z ∷ xs) ys (d, a) (b, bs) = ((λ e. d (sym e), b), head-Apart x xs ys a bs)

pub Apart-none : (xs : List ℕ) → Apart xs []
Apart-none [] = tt
Apart-none (x ∷ xs) = (tt, Apart-none xs)

pub Apart-sym : (xs ys : List ℕ) → Apart xs ys → Apart ys xs
Apart-sym [] ys a = Apart-none ys
Apart-sym (x ∷ xs) ys (a, as') = head-Apart x ys xs a (Apart-sym xs ys as')

pub Apart-last : (a : ℕ) (xs ys : List ℕ) → Apart (a ∷ xs) ys → Absent (last a xs) ys
Apart-last a [] ys (d, ds) = d
Apart-last a (x ∷ xs) ys (d, ds) = Apart-last x xs ys ds

-- A null pointer, or any address, that is none of the segment is not its last one.
pub last_apart : (p a : ℕ) (xs : List ℕ) → Absent p (a ∷ xs) → last a xs ≢ p
last_apart p a [] d = d.0
last_apart p a (x ∷ xs) d = last_apart p x xs d.1

pub prev-Chain : (h : Memory) (p a : ℕ) (xs : List ℕ) (n : ℕ) → Chain h p a xs n → h.prev a ≡ p
prev-Chain h p a [] n c = c.0
prev-Chain h p a (x ∷ xs) n c = c.0

pub next_last-Chain :
    (h : Memory) (p a : ℕ) (xs : List ℕ) (n : ℕ) → Chain h p a xs n → h.next (last a xs) ≡ n
next_last-Chain h p a [] n c = c.1
next_last-Chain h p a (x ∷ xs) n c = next_last-Chain h a x xs n c.2

pub next_nonnull :
    (h : Memory) (p a : ℕ) (xs : List ℕ) (n : ℕ)
    → Chain h p a xs n
    → Absent 0 xs
    → n ≢ 0
    → h.next a ≢ 0
next_nonnull h p a [] n c d e z = e (sym c.1 ∙ z)
next_nonnull h p a (x ∷ xs) n c d e z = d.0 (sym c.1 ∙ z)

pub prev_last_nonnull :
    (h : Memory) (p a : ℕ) (xs : List ℕ) (n : ℕ)
    → Chain h p a xs n
    → Absent 0 (a ∷ xs)
    → p ≢ 0
    → h.prev (last a xs) ≢ 0
prev_last_nonnull h p a [] n c d e z = e (sym c.0 ∙ z)
prev_last_nonnull h p a (x ∷ xs) n c d e z = prev_last_nonnull h a x xs n c.2 d.1 d.0 z

pub split-Chain :
    (h : Memory) (p a : ℕ) (us : List ℕ) (y : ℕ) (vs : List ℕ) (n : ℕ)
    → Chain h p a (us ++ y ∷ vs) n
    → Chain h p a us y × Chain h (last a us) y vs n
split-Chain h p a [] y vs n (c, d, e) = ((c, d), e)
split-Chain h p a (u ∷ us) y vs n (c, d, e) =
    let (l, r) = split-Chain h a u us y vs n e in ((c, d, l), r)

pub append-Chain :
    (h : Memory) (p a : ℕ) (us : List ℕ) (y : ℕ) (vs : List ℕ) (n : ℕ)
    → Chain h p a us y
    → Chain h (last a us) y vs n
    → Chain h p a (us ++ y ∷ vs) n
append-Chain h p a [] y vs n (c, d) e = (c, d, e)
append-Chain h p a (u ∷ us) y vs n (c, d, l) e = (c, d, append-Chain h a u us y vs n l e)

module _ (q v : ℕ) (h : Memory) where
  pub put_next-Chain :
      (p a : ℕ) (xs : List ℕ) (n : ℕ)
      → Absent q (a ∷ xs)
      → Chain h p a xs n
      → Chain (put_next q v h) p a xs n
  put_next-Chain p a [] n (d, _) (c, e) = (c, put_other q v a h.next d ∙ e)
  put_next-Chain p a (x ∷ xs) n (d, ds) (c, e, r) =
      (c, put_other q v a h.next d ∙ e, put_next-Chain a x xs n ds r)

  pub put_prev-Chain :
      (p a : ℕ) (xs : List ℕ) (n : ℕ)
      → Absent q (a ∷ xs)
      → Chain h p a xs n
      → Chain (put_prev q v h) p a xs n
  put_prev-Chain p a [] n (d, _) (c, e) = (put_other q v a h.prev d ∙ c, e)
  put_prev-Chain p a (x ∷ xs) n (d, ds) (c, e, r) =
      (put_other q v a h.prev d ∙ c, e, put_prev-Chain a x xs n ds r)

-- New neighbours of a whole segment.
pub put_next-last-Chain :
    (v : ℕ) (h : Memory) (p a : ℕ) (xs : List ℕ) (n : ℕ)
    → Distinct (a ∷ xs)
    → Chain h p a xs n
    → Chain (put_next (last a xs) v h) p a xs v
put_next-last-Chain v h p a [] n d (c, e) = (c, put_self a v h.next)
put_next-last-Chain v h p a (x ∷ xs) n (d, ds) (c, e, r) = (
  c,
  put_other (last x xs) v a h.next (λ w. last_apart a x xs d (sym w)) ∙ e,
  put_next-last-Chain v h a x xs n ds r,
)

pub put_prev_first-Chain :
    (v : ℕ) (h : Memory) (p a : ℕ) (xs : List ℕ) (n : ℕ)
    → Distinct (a ∷ xs)
    → Chain h p a xs n
    → Chain (put_prev a v h) v a xs n
put_prev_first-Chain v h p a [] n d (c, e) = (put_self a v h.prev, e)
put_prev_first-Chain v h p a (x ∷ xs) n (d, ds) (c, e, r) =
    (put_self a v h.prev, e, put_prev-Chain a v h a x xs n d r)
