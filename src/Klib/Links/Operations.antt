-- ===== src/Klib/Links/Operations.antt =====
-- `list_insert`, `list_remove` and `list_splice` on the sequences of the lists' elements.
use project2_group.Base.{true, ℕ, ◌≡◌, ◌≢◌, refl, sym, ◌∙◌, subst, List, [], ◌∷◌, ◌++◌, ok, ne_test}
use project2_group.Klib.Links.{
  is_interior, Memory, Ends, list_prev, list_insert, list_remove, list_splice,
}
use project2_group.Klib.Links.Chain.{
  Absent, Apart, last, prev-Chain, next_last-Chain, last_apart, Apart-sym, Apart-append, Apart-head,
  append-Apart, append-Absent, next_nonnull, prev_last_nonnull,
}
use project2_group.Klib.Links.Surgery.{
  get_prev-ok, get_next-ok, cut, unlink-ok, cut-Chain, cut-frame, join, link-ok, join-Chain,
  join-frame,
}
use project2_group.Klib.Links.Lists.{
  addresses, IsList, first_or, rest_or, cut_at, cut_around, inner, split-IsList, Parts-with,
  Parts-without, without-IsList, with-IsList, around-IsList, behind_asserts,
}

-- In a list with the elements `us` and `vs` and an address `e` that is not null and not in the list:
-- `list_insert` of `e` before the first of `vs`, or before the tail if there is none, puts `e` between
-- them.
pub list_insert_lem :
    (h : Memory) (l : Ends) (us vs : List ℕ) (e : ℕ)
    → IsList h l (us ++ vs)
    → e ≢ 0
    → Absent e (addresses l (us ++ vs))
    → (h' : Memory) × (list_insert h (first_or l.tail vs) e ≡ ok h') × IsList h' l (us ++ e ∷ vs)
unfolding list_insert
list_insert_lem h l us vs e w e_0 d =
    let y = first_or l.tail vs in
    let ys = rest_or l.tail vs in
    let s = Parts-without l us e [] vs w.distinct ((e_0, tt), (tt, tt)) (d, tt) in
    let (left, right) = split-IsList h l us vs w in
    (
      join 0 l.head us e [] y ys 0 s h,
      rw
          (
            behind_asserts h (last l.head us) y ys s.right_nonnull.0
                (last_apart 0 l.head us s.left_nonnull) right,
            ne_test e 0 e_0,
            link-ok 0 l.head us e [] y ys 0 s h left right,
          )
          refl,
      with-IsList l us e [] vs (join 0 l.head us e [] y ys 0 s h) s
          (join-Chain 0 l.head us e [] y ys 0 s h (h.prev e) (h.next e) left (refl, refl) right),
    )

-- `list_remove` of an element of a list takes out that element and returns the one behind it, or the tail.
pub list_remove_lem :
    (h : Memory) (l : Ends) (us vs : List ℕ) (e : ℕ)
    → IsList h l (us ++ e ∷ vs)
    → (h' : Memory) × (list_remove h e ≡ ok (first_or l.tail vs, h')) × IsList h' l (us ++ vs)
unfolding list_remove
list_remove_lem h l us vs e w =
    let y = first_or l.tail vs in
    let ys = rest_or l.tail vs in
    let s = Parts-with l us e [] vs w.distinct in
    let (left, mid, right) = around-IsList l us e [] vs h w in
    let h' = cut 0 l.head us e [] y ys 0 s h in
    let (whole, out) = cut-Chain 0 l.head us e [] y ys 0 s h left mid right in
    let e_0 = s.middle_nonnull.0 in
    let interior =
      inner h e e_0
        (prev_last_nonnull h (last l.head us) e [] y mid s.middle_nonnull
          (last_apart 0 l.head us s.left_nonnull))
        (next_nonnull h (last l.head us) e [] y mid tt s.right_nonnull.0) in
    (
      h',
      rw (interior, unlink-ok 0 l.head us e [] y ys 0 s h left mid, get_next-ok h' e y e_0 out.1)
          refl,
      without-IsList l us e [] vs h' s whole,
    )

-- The pieces of a list that has no address in common with another.
Apart-pieces :
    (l : Ends) (us : List ℕ) (f : ℕ) (m vs ks : List ℕ)
    → Apart (addresses l (us ++ f ∷ (m ++ vs))) ks
    → Apart (l.head ∷ us) ks × Apart (f ∷ m) ks × Apart (first_or l.tail vs ∷ rest_or l.tail vs) ks
Apart-pieces l us f m vs ks a =
    let y = first_or l.tail vs in
    let ys = rest_or l.tail vs in
    let b = Apart-sym (addresses l (us ++ f ∷ (m ++ vs))) ks a in
    let c = subst (λ xs. Apart ks (l.head ∷ xs)) (cut_around us (f ∷ m) vs l.tail) b in
    let (left, r) = Apart-append ks (l.head ∷ us) ((f ∷ m) ++ y ∷ ys) c in
    let (mid, right) = Apart-append ks (f ∷ m) (y ∷ ys) r in
    (Apart-sym ks (l.head ∷ us) left, Apart-sym ks (f ∷ m) mid, Apart-sym ks (y ∷ ys) right)

-- The address before the end of a segment, and the ASSERTs of its ends.
segment_asserts :
    (h : Memory) (l : Ends) (us : List ℕ) (f : ℕ) (m vs : List ℕ)
    → IsList h l (us ++ f ∷ (m ++ vs))
    → (list_prev h (first_or l.tail vs) ≡ ok (last f m))
      × (is_interior h f ≡ true)
      × (is_interior h (last f m) ≡ true)
unfolding list_prev
segment_asserts h l us f m vs w =
    let y = first_or l.tail vs in
    let ys = rest_or l.tail vs in
    let s = Parts-with l us f m vs w.distinct in
    let (left, mid, right) = around-IsList l us f m vs h w in
    let before = last l.head us in
    let before_0 = last_apart 0 l.head us s.left_nonnull in
    let last_0 = last_apart 0 f m s.middle_nonnull in
    let y_0 = s.right_nonnull.0 in
    (
      rw
          (
            behind_asserts h (last f m) y ys y_0 last_0 right,
            get_prev-ok h y (last f m) y_0 (prev-Chain h (last f m) y ys 0 right),
          )
          refl,
      inner h f s.middle_nonnull.0 (λ e. before_0 (sym (prev-Chain h before f m y mid) ∙ e))
          (next_nonnull h before f m y mid s.middle_nonnull.1 y_0),
      inner h (last f m) last_0 (prev_last_nonnull h before f m y mid s.middle_nonnull before_0)
          (λ e. y_0 (sym (next_last-Chain h before f m y mid) ∙ e)),
    )

-- The two sides of a position in a list that has no address in common with another.
Apart-sides :
    (k : Ends) (ws zs ks : List ℕ)
    → Apart ks (addresses k (ws ++ zs))
    → Apart ks (k.head ∷ ws) × Apart ks (first_or k.tail zs ∷ rest_or k.tail zs)
Apart-sides k ws zs ks a =
    Apart-append ks (k.head ∷ ws) (first_or k.tail zs ∷ rest_or k.tail zs)
      (subst (λ r. Apart ks (k.head ∷ r)) (cut_at ws zs k.tail) a)

-- For two lists with no address in common, the first with the elements `us`, `f :: m` and `vs`, the other with `ws`
-- and `zs`: `list_splice` of the elements from `f` to the first of `vs`, exclusive, or to the tail if
-- there is none, before the first of `zs`, or before the tail, leaves `us` and `vs` in the one list, and `ws`,
-- `f :: m` and `zs` in the other.
pub list_splice_lem :
    (h : Memory) (l k : Ends) (us : List ℕ) (f : ℕ) (m vs ws zs : List ℕ)
    → IsList h l (us ++ f ∷ (m ++ vs))
    → IsList h k (ws ++ zs)
    → Apart (addresses l (us ++ f ∷ (m ++ vs))) (addresses k (ws ++ zs))
    → (h' : Memory) × (list_splice h (first_or k.tail zs) f (first_or l.tail vs) ≡ ok h')
      × IsList h' l (us ++ vs)
      × IsList h' k (ws ++ f ∷ (m ++ zs))
unfolding list_splice
list_splice_lem h l k us f m vs ws zs w w_k a =
    let y = first_or l.tail vs in
    let ys = rest_or l.tail vs in
    let x = first_or k.tail zs in
    let xs = rest_or k.tail zs in
    let s = Parts-with l us f m vs w.distinct in
    let (a_left, a_mid, a_right) = Apart-pieces l us f m vs (addresses k (ws ++ zs)) a in
    let s_k = Parts-without k ws f m zs w_k.distinct (s.middle_nonnull, s.middle) a_mid in
    let (left, mid, right) = around-IsList l us f m vs h w in
    let (left_k, right_k) = split-IsList h k ws zs w_k in
    let before = last l.head us in
    let h₁ = cut 0 l.head us f m y ys 0 s h in
    let (whole, out) = cut-Chain 0 l.head us f m y ys 0 s h left mid right in
    let (ll, lr) = Apart-sides k ws zs (l.head ∷ us) a_left in
    let (rl, rr) = Apart-sides k ws zs (y ∷ ys) a_right in
    let left_k' = cut-frame 0 l.head us f m y ys 0 s h 0 k.head ws x ll rl.0 left_k in
    let right_k' = cut-frame 0 l.head us f m y ys 0 s h (last k.head ws) x xs 0 lr rr.0 right_k in
    let (end_prev, first_interior, last_interior) = segment_asserts h l us f m vs w in
    let h₂ = join 0 k.head ws f m x xs 0 s_k h₁ in
    let l_k =
      append-Apart (k.head ∷ ws) (l.head ∷ us) (y ∷ ys) (Apart-sym (l.head ∷ us) (k.head ∷ ws) ll)
        (Apart-sym (y ∷ ys) (k.head ∷ ws) rl) in
    let l_m =
      append-Apart (f ∷ m) (l.head ∷ us) (y ∷ ys) (Apart-sym (l.head ∷ us) (f ∷ m) s.left_middle)
        s.middle_right in
    let l_x =
      append-Absent x (l.head ∷ us) (y ∷ ys) (Apart-head x (l.head ∷ us) xs lr).0
        (Apart-head x (y ∷ ys) xs rr).0 in
    (
      h₂,
      rw
          (
            behind_asserts h (last k.head ws) x xs s_k.right_nonnull.0
                (last_apart 0 k.head ws s_k.left_nonnull) right_k,
            ne_test f y (λ e. s.middle_right.0.0 (sym e)),
            end_prev,
            first_interior,
            last_interior,
            unlink-ok 0 l.head us f m y ys 0 s h left mid,
            link-ok 0 k.head ws f m x xs 0 s_k h₁ left_k' right_k',
          )
          refl,
      without-IsList l us f m vs h₂ s
          (join-frame 0 k.head ws f m x xs 0 s_k h₁ 0 l.head (us ++ y ∷ ys) 0 l_k l_m l_x whole),
      with-IsList k ws f m zs h₂ s_k
          (join-Chain 0 k.head ws f m x xs 0 s_k h₁ before y left_k' out right_k'),
    )
