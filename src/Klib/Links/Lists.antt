-- ===== src/Klib/Links/Lists.antt =====
-- Whole lists: `list_init`, `list_insert`, `list_remove` and `list_splice` on the sequence of a list's elements.
use mathlib.Core.List.{append_assoc}
use project2_group.Base.{
  ℕ, ◌≡◌, ◌≢◌, refl, sym, ap, ◌∙◌, subst, List, [], ◌∷◌, ◌++◌, ok, ◌==◌, ◌||◌, not, Bool, true,
  false, ne_test,
}
use project2_group.Klib.Links.{Memory, Ends, is_interior, is_tail, updated, list_init}
use project2_group.Klib.Links.Chain.{
  Absent, Distinct, Apart, Chain, last, put_self, put_other, prev-Chain, split-Chain, Absent-append,
  Distinct-append, Apart-sym, Apart-append,
}
use project2_group.Klib.Links.Surgery.{
  IsSplit, Distinct-IsSplit, IsSplit-Distinct, IsSplit-outer, set_prev-ok, set_next-ok,
}

-- The addresses of a list, from its head to its tail.
abbrev pub addresses : Ends → List ℕ → List ℕ
addresses l es = l.head ∷ es ++ l.tail ∷ []

-- The list has the elements `es`: links lead from the head through them to the tail and back, the ends
-- have null pointers on their outer sides, and all addresses are different.
pub record IsList (h : Memory) (l : Ends) (es : List ℕ) : Type 0 where
  pub linked : Chain h 0 l.head (es ++ l.tail ∷ []) 0
  pub distinct : Distinct (0 ∷ addresses l es)

-- The first element of what a position in a list has behind it, or the tail; and the rest.
abbrev pub first_or : ℕ → List ℕ → ℕ
first_or t [] = t
first_or t (v ∷ vs) = v

abbrev pub rest_or : ℕ → List ℕ → List ℕ
rest_or t [] = []
rest_or t (v ∷ vs) = vs ++ t ∷ []

pub first-rest : (t : ℕ) (vs : List ℕ) → vs ++ t ∷ [] ≡ first_or t vs ∷ rest_or t vs
first-rest t [] = refl
first-rest t (v ∷ vs) = refl

pub cut_at : (us vs : List ℕ) (t : ℕ) → (us ++ vs) ++ t ∷ [] ≡ us ++ first_or t vs ∷ rest_or t vs
cut_at us vs t = append_assoc us vs (t ∷ []) ∙ ap (◌++◌ us) (first-rest t vs)

pub cut_around :
    (us m vs : List ℕ) (t : ℕ)
    → (us ++ (m ++ vs)) ++ t ∷ [] ≡ us ++ (m ++ first_or t vs ∷ rest_or t vs)
cut_around us m vs t = append_assoc us (m ++ vs) (t ∷ []) ∙ ap (◌++◌ us) (cut_at m vs t)

-- The two ASSERTs that an address is linked on both sides.
inner_or_tail :
    (h : Memory) (e p : ℕ) → e ≢ 0 → h.prev e ≡ p → p ≢ 0 → (is_interior h e || is_tail h e) ≡ true
inner_or_tail h e p d q n = rw (ne_test e 0 d, q, ne_test p 0 n) (either (h.next e == 0))
  where
    either : (b : Bool) → (not b || b) ≡ true
    either true = refl
    either false = refl

pub inner : (h : Memory) (e : ℕ) → e ≢ 0 → h.prev e ≢ 0 → h.next e ≢ 0 → is_interior h e ≡ true
inner h e d p n = rw (ne_test e 0 d, ne_test (h.prev e) 0 p, ne_test (h.next e) 0 n) refl

pub init-IsList :
    (h : Memory) (l : Ends)
    → l.head ≢ 0
    → l.tail ≢ 0
    → l.tail ≢ l.head
    → (h' : Memory) × (list_init h l ≡ ok h') × IsList h' l []
unfolding list_init
init-IsList h l a b d =
    let h₁ : Memory = record h { prev = updated l.head 0 h.prev } in
    let h₂ : Memory = record h₁ { next = updated l.head l.tail h₁.next } in
    let h₃ : Memory = record h₂ { prev = updated l.tail l.head h₂.prev } in
    let h₄ : Memory = record h₃ { next = updated l.tail 0 h₃.next } in
    (
      h₄,
      rw
          (
            set_prev-ok h l.head 0 a,
            set_next-ok h₁ l.head l.tail a,
            set_prev-ok h₂ l.tail l.head b,
            set_next-ok h₃ l.tail 0 b,
          )
          refl,
      record {
        linked = (
          put_other l.tail l.head l.head h₂.prev (λ e. d (sym e)) ∙ put_self l.head 0 h.prev,
          put_other l.tail 0 l.head h₃.next (λ e. d (sym e)) ∙ put_self l.head l.tail h₁.next,
          (put_self l.tail l.head h₂.prev, put_self l.tail 0 h₃.next),
        );
        distinct = ((a, (b, tt)), ((d, tt), (tt, tt)));
      },
    )

-- A list at a position, and around a segment.
pub split-IsList :
    (h : Memory) (l : Ends) (us vs : List ℕ)
    → IsList h l (us ++ vs)
    → Chain h 0 l.head us (first_or l.tail vs)
      × Chain h (last l.head us) (first_or l.tail vs) (rest_or l.tail vs) 0
split-IsList h l us vs w =
    split-Chain h 0 l.head us (first_or l.tail vs) (rest_or l.tail vs) 0
      (subst (λ xs. Chain h 0 l.head xs 0) (cut_at us vs l.tail) w.linked)

module _ (l : Ends) (us : List ℕ) (f : ℕ) (m vs : List ℕ) where
  abbrev pub y_of : ℕ
  y_of = first_or l.tail vs

  abbrev pub ys_of : List ℕ
  ys_of = rest_or l.tail vs

  -- The addresses of the list in three parts.
  abbrev pub Parts : Type 0
  Parts = IsSplit (l.head ∷ us) (f ∷ m) (y_of ∷ ys_of)

  pub Parts-with : Distinct (0 ∷ addresses l (us ++ f ∷ (m ++ vs))) → Parts
  Parts-with d =
      Distinct-IsSplit (l.head ∷ us) (f ∷ m) (y_of ∷ ys_of)
        (subst (λ xs. Distinct (0 ∷ l.head ∷ xs)) (cut_around us (f ∷ m) vs l.tail) d)

  pub Parts-without :
      Distinct (0 ∷ addresses l (us ++ vs))
      → Distinct (0 ∷ f ∷ m)
      → Apart (f ∷ m) (addresses l (us ++ vs))
      → Parts
  Parts-without (z, d) (z_m, d_m) a =
      let e = subst (λ xs. Distinct (l.head ∷ xs)) (cut_at us vs l.tail) d in
      let z' = subst (λ xs. Absent 0 (l.head ∷ xs)) (cut_at us vs l.tail) z in
      let a' = subst (λ xs. Apart (f ∷ m) (l.head ∷ xs)) (cut_at us vs l.tail) a in
      let (left, right, lr) = Distinct-append (l.head ∷ us) (y_of ∷ ys_of) e in
      let (z_l, z_r) = Absent-append 0 (l.head ∷ us) (y_of ∷ ys_of) z' in
      let (ml, mr) = Apart-append (f ∷ m) (l.head ∷ us) (y_of ∷ ys_of) a' in
      record {
        left = left;
        middle = d_m;
        right = right;
        left_middle = Apart-sym (f ∷ m) (l.head ∷ us) ml;
        left_right = lr;
        middle_right = mr;
        left_nonnull = z_l;
        middle_nonnull = z_m;
        right_nonnull = z_r;
      }

  -- The list without the segment, and with it.
  pub without-IsList :
      (h : Memory) → Parts → Chain h 0 l.head (us ++ y_of ∷ ys_of) 0 → IsList h l (us ++ vs)
  without-IsList h s c = record {
    linked = subst (λ xs. Chain h 0 l.head xs 0) (sym (cut_at us vs l.tail)) c;
    distinct =
        subst (λ xs. Distinct (0 ∷ l.head ∷ xs)) (sym (cut_at us vs l.tail))
          (IsSplit-outer (l.head ∷ us) (f ∷ m) (y_of ∷ ys_of) s);
  }

  pub with-IsList :
      (h : Memory)
      → Parts
      → Chain h 0 l.head (us ++ f ∷ (m ++ y_of ∷ ys_of)) 0
      → IsList h l (us ++ f ∷ (m ++ vs))
  with-IsList h s c = record {
    linked = subst (λ xs. Chain h 0 l.head xs 0) (sym (cut_around us (f ∷ m) vs l.tail)) c;
    distinct =
        subst (λ xs. Distinct (0 ∷ l.head ∷ xs)) (sym (cut_around us (f ∷ m) vs l.tail))
          (IsSplit-Distinct (l.head ∷ us) (f ∷ m) (y_of ∷ ys_of) s);
  }

  pub around-IsList :
      (h : Memory)
      → IsList h l (us ++ f ∷ (m ++ vs))
      → Chain h 0 l.head us f × Chain h (last l.head us) f m y_of × Chain h (last f m) y_of ys_of 0
  around-IsList h w =
      let c = subst (λ xs. Chain h 0 l.head xs 0) (cut_around us (f ∷ m) vs l.tail) w.linked in
      let (left, r) = split-Chain h 0 l.head us f (m ++ y_of ∷ ys_of) 0 c in
      let (mid, right) = split-Chain h (last l.head us) f m y_of ys_of 0 r in (left, mid, right)

-- The ASSERTs hold of what is behind a position.
pub behind_asserts :
    (h : Memory) (p y : ℕ) (ys : List ℕ)
    → y ≢ 0
    → p ≢ 0
    → Chain h p y ys 0
    → (is_interior h y || is_tail h y) ≡ true
behind_asserts h p y ys d e c = inner_or_tail h y p d (prev-Chain h p y ys 0 c) e
