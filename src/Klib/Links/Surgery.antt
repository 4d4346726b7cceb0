-- ===== src/Klib/Links/Surgery.antt =====
-- What the assignments of `link` and `unlink` do to segments.
use project2_group.Base.{ℕ, ◌≡◌, ◌≢◌, refl, sym, ◌∙◌, List, ◌∷◌, ◌++◌, ok, ne_test}
use project2_group.Klib.Links.{Memory, get_prev, get_next, set_prev, set_next, link, unlink}
use project2_group.Klib.Links.Chain.{
  Absent, Distinct, Apart, Chain, last, put_prev, put_next, put_other, Absent-append,
  Distinct-append, append-Absent, append-Distinct, append-Apart, Apart-append, Apart-head,
  Apart-last, Apart-sym, last_apart, prev-Chain, next_last-Chain, append-Chain, put_next-Chain,
  put_prev-Chain, put_next-last-Chain, put_prev_first-Chain,
}

-- Three lists of addresses, none of them null and no two of them the same.
pub record IsSplit (as' ms bs : List ℕ) : Type 0 where
  pub left : Distinct as'
  pub middle : Distinct ms
  pub right : Distinct bs
  pub left_middle : Apart as' ms
  pub left_right : Apart as' bs
  pub middle_right : Apart ms bs
  pub left_nonnull : Absent 0 as'
  pub middle_nonnull : Absent 0 ms
  pub right_nonnull : Absent 0 bs

pub Distinct-IsSplit : (as' ms bs : List ℕ) → Distinct (0 ∷ as' ++ (ms ++ bs)) → IsSplit as' ms bs
Distinct-IsSplit as' ms bs (z, d) =
    let (z_a, z_r) = Absent-append 0 as' (ms ++ bs) z in
    let (z_m, z_b) = Absent-append 0 ms bs z_r in
    let (l, r, a) = Distinct-append as' (ms ++ bs) d in
    let (m, b, mb) = Distinct-append ms bs r in
    let (am, ab) = Apart-append as' ms bs a in
    record {
      left = l;
      middle = m;
      right = b;
      left_middle = am;
      left_right = ab;
      middle_right = mb;
      left_nonnull = z_a;
      middle_nonnull = z_m;
      right_nonnull = z_b;
    }

pub IsSplit-Distinct : (as' ms bs : List ℕ) → IsSplit as' ms bs → Distinct (0 ∷ as' ++ (ms ++ bs))
IsSplit-Distinct as' ms bs s = (
  append-Absent 0 as' (ms ++ bs) s.left_nonnull
      (append-Absent 0 ms bs s.middle_nonnull s.right_nonnull),
  append-Distinct as' (ms ++ bs) s.left (append-Distinct ms bs s.middle s.right s.middle_right)
      (append-Apart as' ms bs s.left_middle s.left_right),
)

pub IsSplit-outer : (as' ms bs : List ℕ) → IsSplit as' ms bs → Distinct (0 ∷ as' ++ bs)
IsSplit-outer as' ms bs s = (
  append-Absent 0 as' bs s.left_nonnull s.right_nonnull,
  append-Distinct as' bs s.left s.right s.left_right,
)

pub get_prev-ok : (h : Memory) (p v : ℕ) → p ≢ 0 → h.prev p ≡ v → get_prev h p ≡ ok v
unfolding get_prev
get_prev-ok h p v d e = rw (ne_test p 0 d, e) refl

pub get_next-ok : (h : Memory) (p v : ℕ) → p ≢ 0 → h.next p ≡ v → get_next h p ≡ ok v
unfolding get_next
get_next-ok h p v d e = rw (ne_test p 0 d, e) refl

pub set_prev-ok : (h : Memory) (p v : ℕ) → p ≢ 0 → set_prev h p v ≡ ok (put_prev p v h)
unfolding set_prev
set_prev-ok h p v d = rw (ne_test p 0 d) refl

pub set_next-ok : (h : Memory) (p v : ℕ) → p ≢ 0 → set_next h p v ≡ ok (put_next p v h)
unfolding set_next
set_next-ok h p v d = rw (ne_test p 0 d) refl

-- The segment of `f` and `m` between `a :: us` and `y :: vs`.
module _ (p a : ℕ) (us : List ℕ) (f : ℕ) (m : List ℕ) (y : ℕ) (vs : List ℕ) (q : ℕ)
    (s : IsSplit (a ∷ us) (f ∷ m) (y ∷ vs)) where
  abbrev before_it : ℕ
  before_it = last a us

  abbrev end_of_it : ℕ
  end_of_it = last f m

  end_before : end_of_it ≢ before_it
  end_before = last_apart before_it f m (Apart-last a us (f ∷ m) s.left_middle)

  first_before : f ≢ before_it
  first_before = (Apart-last a us (f ∷ m) s.left_middle).0

  right_before : y ≢ before_it
  right_before = (Apart-last a us (y ∷ vs) s.left_right).0

  right_end : y ≢ end_of_it
  right_end = (Apart-last f m (y ∷ vs) s.middle_right).0

  right_left : Absent y (a ∷ us)
  right_left = (Apart-head y (a ∷ us) vs s.left_right).0

  right_middle : Absent y (f ∷ m)
  right_middle = (Apart-head y (f ∷ m) vs s.middle_right).0

  first_left : Absent f (a ∷ us)
  first_left = (Apart-head f (a ∷ us) m s.left_middle).0

  abbrev pub cut : Memory → Memory
  cut h = put_prev y before_it (put_next before_it y h)

  pub unlink-ok :
      (h : Memory) → Chain h p a us f → Chain h before_it f m y → unlink h f end_of_it ≡ ok (cut h)
  unfolding unlink
  unlink-ok h left mid =
      let f_z = prev-Chain h before_it f m y mid in
      let l_y = next_last-Chain h before_it f m y mid in
      let l_0 = last_apart 0 f m s.middle_nonnull in
      rw
        (
          get_prev-ok h f before_it s.middle_nonnull.0 f_z,
          get_next-ok h end_of_it y l_0 l_y,
          set_next-ok h before_it y (last_apart 0 a us s.left_nonnull),
          get_next-ok (put_next before_it y h) end_of_it y l_0
              (put_other before_it y end_of_it h.next end_before ∙ l_y),
          get_prev-ok (put_next before_it y h) f before_it s.middle_nonnull.0 f_z,
          set_prev-ok (put_next before_it y h) y before_it s.right_nonnull.0,
        )
        refl

  -- What is left is linked, and so is what was taken out.
  pub cut-Chain :
      (h : Memory)
      → Chain h p a us f
      → Chain h before_it f m y
      → Chain h end_of_it y vs q
      → Chain (cut h) p a (us ++ y ∷ vs) q × Chain (cut h) before_it f m y
  cut-Chain h left mid right = (
    append-Chain (cut h) p a us y vs q
        (put_prev-Chain y before_it (put_next before_it y h) p a us y right_left
          (put_next-last-Chain y h p a us f s.left left))
        (put_prev_first-Chain before_it (put_next before_it y h) end_of_it y vs q s.right (
          put_next-Chain before_it y h end_of_it y vs q (Apart-last a us (y ∷ vs) s.left_right)
            right)),
    put_prev-Chain y before_it (put_next before_it y h) before_it f m y right_middle
        (put_next-Chain before_it y h before_it f m y (Apart-last a us (f ∷ m) s.left_middle) mid),
  )

  -- A segment of which neither side is a part.
  pub cut-frame :
      (h : Memory) (r b : ℕ) (bs : List ℕ) (t : ℕ)
      → Apart (a ∷ us) (b ∷ bs)
      → Absent y (b ∷ bs)
      → Chain h r b bs t
      → Chain (cut h) r b bs t
  cut-frame h r b bs t d e c =
      put_prev-Chain y before_it (put_next before_it y h) r b bs t e
        (put_next-Chain before_it y h r b bs t (Apart-last a us (b ∷ bs) d) c)

  abbrev pub join : Memory → Memory
  join h =
      put_prev y end_of_it (put_next before_it f (put_next end_of_it y (put_prev f before_it h)))

  pub link-ok :
      (h : Memory)
      → Chain h p a us y
      → Chain h before_it y vs q
      → link h y f end_of_it ≡ ok (join h)
  unfolding link
  link-ok h left right =
      let y_z = prev-Chain h before_it y vs q right in
      let h₁ = put_prev f before_it h in
      let h₂ = put_next end_of_it y h₁ in
      rw
        (
          get_prev-ok h y before_it s.right_nonnull.0 y_z,
          set_prev-ok h f before_it s.middle_nonnull.0,
          set_next-ok h₁ end_of_it y (last_apart 0 f m s.middle_nonnull),
          get_prev-ok h₂ y before_it s.right_nonnull.0
              (put_other f before_it y h.prev (λ e. right_middle.0 (sym e)) ∙ y_z),
          set_next-ok h₂ before_it f (last_apart 0 a us s.left_nonnull),
          set_prev-ok (put_next before_it f h₂) y end_of_it s.right_nonnull.0,
        )
        refl

  -- The segment, whatever its neighbours were, is between the two sides.
  pub join-Chain :
      (h : Memory) (r t : ℕ)
      → Chain h p a us y
      → Chain h r f m t
      → Chain h before_it y vs q
      → Chain (join h) p a (us ++ f ∷ (m ++ y ∷ vs)) q
  join-Chain h r t left mid right =
      let h₁ = put_prev f before_it h in
      let h₂ = put_next end_of_it y h₁ in
      let h₃ = put_next before_it f h₂ in
      let end_left = Apart-last f m (a ∷ us) (Apart-sym (a ∷ us) (f ∷ m) s.left_middle) in
      append-Chain (join h) p a us f (m ++ y ∷ vs) q
        (put_prev-Chain y end_of_it h₃ p a us f right_left (
          put_next-last-Chain f h₂ p a us y s.left (
            put_next-Chain end_of_it y h₁ p a us y end_left
              (put_prev-Chain f before_it h p a us y first_left left))))
        (append-Chain (join h) before_it f m y vs q
          (put_prev-Chain y end_of_it h₃ before_it f m y right_middle (
            put_next-Chain before_it f h₂ before_it f m y (Apart-last a us (f ∷ m) s.left_middle) (
              put_next-last-Chain y h₁ before_it f m t s.middle
                (put_prev_first-Chain before_it h r f m t s.middle mid))))
          (put_prev_first-Chain end_of_it h₃ before_it y vs q s.right (
            put_next-Chain before_it f h₂ before_it y vs q (Apart-last a us (y ∷ vs) s.left_right) (
              put_next-Chain end_of_it y h₁ before_it y vs q
                (Apart-last f m (y ∷ vs) s.middle_right)
                (put_prev-Chain f before_it h before_it y vs q s.middle_right.0 right)))))

  pub join-frame :
      (h : Memory) (r b : ℕ) (bs : List ℕ) (t : ℕ)
      → Apart (a ∷ us) (b ∷ bs)
      → Apart (f ∷ m) (b ∷ bs)
      → Absent y (b ∷ bs)
      → Chain h r b bs t
      → Chain (join h) r b bs t
  join-frame h r b bs t d e i c =
      let h₁ = put_prev f before_it h in
      let h₂ = put_next end_of_it y h₁ in
      put_prev-Chain y end_of_it (put_next before_it f h₂) r b bs t i (
        put_next-Chain before_it f h₂ r b bs t (Apart-last a us (b ∷ bs) d) (
          put_next-Chain end_of_it y h₁ r b bs t (Apart-last f m (b ∷ bs) e)
            (put_prev-Chain f before_it h r b bs t e.0 c)))
