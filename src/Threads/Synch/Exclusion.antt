-- ===== src/Threads/Synch/Exclusion.antt =====
-- A lock lets one thread in at a time.
use project2_group.Base.{
  ℕ, ◌+◌, ◌-◌, ◌%◌, ◌^◌, ◌≡◌, ◌≢◌, ◌↔◌, ◌⊎◌, inl, inr, refl, sym, ap, ◌∙◌, subst, Bool, true, false,
  Option, none, some, List, [], ◌∷◌, Run, ok, ◌>>=◌, ◌==◌, if◌then◌else◌, arith, Bool-cases, ==_iff,
  bool_clash, ok-injective, >>=-eq-ok, Option-cases, ne_test,
}
use project2_group.Klib.OrderedList.{list_push_back, list_pop_front}
use project2_group.Threads.Scheduler.{Kernel, thread_block, thread_unblock}
use project2_group.Threads.Synch.{
  Semaphore, Lock, sema_down, sema_try_down, sema_up, sema_init, lock_init,
  lock_held_by_current_thread, Place, outside, waiting, taken, inside, releasing, System, go, here,
  LockStep, acquire, down, try_acquire, hold, release, up, elsewhere, fresh, LockReach, begin,
  then_step,
}

-- From the moment the semaphore let the thread through to its `sema_up`.
abbrev pub critical : Place → Bool
critical outside = false
critical waiting = false
critical taken = true
critical inside = true
critical releasing = true

abbrev pub holder_at : Place → ℕ → Option ℕ
holder_at inside t = some t
holder_at _ t = none

abbrev pub Free : ℕ → Option ℕ → (ℕ → Place) → Type 0
Free value holder place = (value ≡ 1) × (holder ≡ none) × ((t : ℕ) → critical (place t) ≡ false)

abbrev pub Owned : ℕ → Option ℕ → (ℕ → Place) → ℕ → Type 0
Owned value holder place o =
    (value ≡ 0)
    × (holder ≡ holder_at (place o) o)
    × (critical (place o) ≡ true)
    × ((t : ℕ) → critical (place t) ≡ true → t ≡ o)

-- Either the semaphore is 1 and no thread is past it, or it is 0 and one thread is.
abbrev pub Excludes : ℕ → Option ℕ → (ℕ → Place) → Type 0
Excludes value holder place = Free value holder place ⊎ ((o : ℕ) × Owned value holder place o)

module _ (place : ℕ → Place) (c : ℕ) (p : Place) where
  abbrev moved : ℕ → Place
  moved t = if t == c then p else place t

  moved_here : moved c ≡ p
  moved_here = ground arith

  moved_other : (t : ℕ) → t ≢ c → moved t ≡ place t
  moved_other t h = rw (ne_test t c h) refl

  moved-quiet :
      critical p ≡ false → (t : ℕ) → critical (place t) ≡ false → critical (moved t) ≡ false
  moved-quiet q t h = elim (Bool-cases (t == c)) [ inl e ↦ rw e q | inr e ↦ rw e h ]

  -- A move between places that are not past the semaphore.
  stay :
      (v : ℕ) (h : Option ℕ)
      → critical (place c) ≡ false
      → critical p ≡ false
      → Excludes v h place
      → Excludes v h moved
  stay v h before after (inl (e, e', f)) = inl (e, e', λ t. moved-quiet after t (f t))
  stay v h before after (inr (o, (e, e', k, f))) =
      let apart : o ≢ c = λ q. bool_clash before (subst (λ t. critical (place t) ≡ true) q k) in
      inr (
        o,
        (
          e,
          rw (moved_other o apart) e',
          rw (moved_other o apart) k,
          λ t r. elim (Bool-cases (t == c)) [
            | inl q ↦ bool_clash after (subst (λ b. critical (if b then p else place t) ≡ true) q r)
            | inr q ↦ f t (subst (λ b. critical (if b then p else place t) ≡ true) q r)
          ],
        ),
      )

  -- A move of the one thread that may be past the semaphore to a place past it.
  alone :
      ((t : ℕ) → critical (place t) ≡ true → t ≡ c) → (t : ℕ) → critical (moved t) ≡ true → t ≡ c
  alone f t r = elim (Bool-cases (t == c)) [
    | inl q ↦ (==_iff t c).0 q
    | inr q ↦ f t (subst (λ b. critical (if b then p else place t) ≡ true) q r)
  ]

  own :
      critical p ≡ true
      → ((t : ℕ) → critical (place t) ≡ true → t ≡ c)
      → Excludes 0 (holder_at p c) moved
  own k f = inr (c, (refl, rw moved_here refl, rw moved_here k, alone f))

-- A thread past the semaphore is its owner.
owner :
    (v : ℕ) (h : Option ℕ) (place : ℕ → Place) (c : ℕ)
    → critical (place c) ≡ true
    → Excludes v h place
    → Owned v h place c
owner v h place c k (inl (e, e', f)) = bool_clash (f c) k
owner v h place c k (inr (o, w)) = subst (Owned v h place) (sym (w.3 c k)) w

abbrev pub IsExclusive : System → Type 0
IsExclusive m = Excludes m.lock.semaphore.value m.lock.holder m.place

-- A semaphore above 0 is free, and the thread that takes it becomes the owner.
enter :
    (v : ℕ) (h : Option ℕ) (place : ℕ → Place) (c : ℕ)
    → v ≢ 0
    → Excludes v h place
    → Excludes (v - 1) h (moved place c taken)
enter v h place c n (inl (e, e', f)) =
    let zero : v - 1 ≡ 0 = omega arith in
    rw (zero, e') (own place c taken refl (λ t r. bool_clash (f t) r))
enter v h place c n (inr (o, w)) = absurd (n w.0)

-- The owner leaves.
leave_owner :
    (v : ℕ) (h : Option ℕ) (place : ℕ → Place) (c : ℕ)
    → place c ≡ releasing
    → Excludes v h place
    → Excludes ((v + 1) % 2 ^ 32) h (moved place c outside)
leave_owner v h place c e x =
    let (z, e', _, f) = owner v h place c (rw e refl) x in
    inl (omega (arith, z), e' ∙ rw e refl, λ t. ends t (Bool-cases (t == c)))
  where
    not_critical : (t : ℕ) → (t == c) ≡ false → critical (place t) ≡ false
    not_critical t q = elim (Bool-cases (critical (place t))) [
      | inl k ↦ bool_clash q ((==_iff t c).1 ((owner v h place c (rw e refl) x).3 t k))
      | inr k ↦ k
    ]

    ends :
        (t : ℕ)
        → ((t == c) ≡ true) ⊎ ((t == c) ≡ false)
        → critical (moved place c outside t) ≡ false
    ends t (inl q) = rw q refl
    ends t (inr q) = rw q (not_critical t q)

-- What a return of `sema_down` did to the value.
down_value :
    (s s' : Semaphore) (k k' : Kernel) (through : Bool)
    → sema_down s k ≡ ok (through, s', k')
    → ((through ≡ false) × (s'.value ≡ s.value))
      ⊎ ((through ≡ true) × (s.value ≢ 0) × (s'.value ≡ s.value - 1))
unfolding sema_down
down_value s s' k k' through e = elim (Bool-cases (s.value == 0)) [
  | inl z ↦
      let (k1, _, q) =
        >>=-eq-ok (thread_block k) _ (subst (λ b. pass b ≡ ok (through, s', k')) z e) in
      inl (sym (ap (λ x. x.0) (ok-injective q)), sym (ap (λ x. x.1.value) (ok-injective q)))
  | inr z ↦
      let q = ok-injective (subst (λ b. pass b ≡ ok (through, s', k')) z e) in
      inr (
        sym (ap (λ x. x.0) q),
        (λ n. bool_clash z ((==_iff s.value 0).1 n)),
        sym (ap (λ x. x.1.value) q),
      )
]
  where
    pass : Bool → Run (Bool × Semaphore × Kernel)
    pass b =
        if b
        then (do
          k' ← thread_block k
          ok (false, record s { waiters = list_push_back s.waiters k.current }, k'))
        else ok (true, record s { value = s.value - 1 }, k)

down-Excludes :
    (m : System) (through : Bool) (s : Semaphore) (k : Kernel)
    → here m ≡ waiting
    → sema_down m.lock.semaphore m.kernel ≡ ok (through, s, k)
    → IsExclusive m
    → Excludes s.value m.lock.holder (go m (if through then taken else waiting))
down-Excludes m through s k w e x = elim (down_value m.lock.semaphore s m.kernel k through e) [
  | inl (t, v) ↦ rw (t, v) (stay m.place m.kernel.current waiting _ _ (rw w refl) refl x)
  | inr (t, n, v) ↦ rw (t, v) (enter _ _ m.place m.kernel.current n x)
]

up_value :
    (s s' : Semaphore) (k k' : Kernel)
    → sema_up s k ≡ ok (s', k')
    → s'.value ≡ (s.value + 1) % 2 ^ 32
unfolding sema_up list_pop_front
up_value s s' k k' e = waiting_or_not s.waiters s.value e
  where
    pass : List ℕ → ℕ → Run (Semaphore × Kernel)
    pass ws v = elim (list_pop_front ws) [
      | none ↦ ok (record { value = (v + 1) % 2 ^ 32; waiters = ws }, k)
      | some r ↦ (do
        k' ← thread_unblock r.0 k
        ok (record { value = (v + 1) % 2 ^ 32; waiters = r.1 }, k'))
    ]

    waiting_or_not : (ws : List ℕ) (v : ℕ) → pass ws v ≡ ok (s', k') → s'.value ≡ (v + 1) % 2 ^ 32
    waiting_or_not [] v q = sym (ap (λ x. x.0.value) (ok-injective q))
    waiting_or_not (w ∷ ws) v q =
        let (k1, _, q') = >>=-eq-ok (thread_unblock w k) _ q in
        sym (ap (λ x. x.0.value) (ok-injective q'))

try_value :
    (s : Semaphore) (v : ℕ) (h : Option ℕ) (place : ℕ → Place) (c : ℕ)
    → place c ≡ outside
    → Excludes s.value h place
    → Excludes
        (sema_try_down s).1.value
        h
        (moved place c (if (sema_try_down s).0 then taken else outside))
unfolding sema_try_down
try_value s v h place c w x = elim (Bool-cases (s.value == 0)) [
  | inl z ↦ rw z (stay place c outside _ _ (rw w refl) refl x)
  | inr z ↦ rw z (enter _ _ place c (λ n. bool_clash z ((==_iff s.value 0).1 n)) x)
]

pub LockStep-IsExclusive : (m m' : System) → IsExclusive m → LockStep m m' → IsExclusive m'
LockStep-IsExclusive m _ x (acquire w l) =
    stay m.place m.kernel.current waiting _ _ (rw w refl) refl x
LockStep-IsExclusive m _ x (down through s k w e) = down-Excludes m through s k w e x
LockStep-IsExclusive m _ x (try_acquire w l) =
    try_value m.lock.semaphore 0 m.lock.holder m.place m.kernel.current w x
LockStep-IsExclusive m _ x (hold w) =
    let (z, _, _, f) = owner _ _ m.place m.kernel.current (rw w refl) x in
    rw z (own m.place m.kernel.current inside refl f)
LockStep-IsExclusive m _ x (release w l) =
    let (z, _, _, f) = owner _ _ m.place m.kernel.current (rw w refl) x in
    rw z (own m.place m.kernel.current releasing refl f)
LockStep-IsExclusive m _ x (up s k w e) =
    rw (up_value m.lock.semaphore s m.kernel k e) (leave_owner _ _ m.place m.kernel.current w x)
LockStep-IsExclusive m _ x (elsewhere k s) = x

pub LockReach-IsExclusive : (k : Kernel) (m : System) → LockReach (fresh k) m → IsExclusive m
unfolding lock_init sema_init
LockReach-IsExclusive k _ begin = inl (refl, refl, λ t. refl)
LockReach-IsExclusive k _ (then_step m' m'' r s) =
    LockStep-IsExclusive m' m'' (LockReach-IsExclusive k m' r) s

is_holder : Option ℕ → ℕ → Bool
is_holder none c = false
is_holder (some t) c = t == c

at_inside :
    (p : Place) (place : ℕ → Place) (o c : ℕ)
    → place o ≡ p
    → is_holder (holder_at p o) c ≡ true
    → place c ≡ inside
unfolding is_holder
at_inside outside place o c e h = cc
at_inside waiting place o c e h = cc
at_inside taken place o c e h = cc
at_inside inside place o c e h = ap place (sym ((==_iff o c).0 h)) ∙ e
at_inside releasing place o c e h = cc

holder-inside :
    (v : ℕ) (h : Option ℕ) (place : ℕ → Place) (c : ℕ)
    → Excludes v h place
    → (is_holder h c ≡ true) ↔ (place c ≡ inside)
unfolding is_holder
holder-inside v h place c x = (to x, from)
  where
    to : Excludes v h place → is_holder h c ≡ true → place c ≡ inside
    to (inl (_, e, _)) q = bool_clash (ap (λ y. is_holder y c) e) q
    to (inr (o, (_, e, _, _))) q =
        at_inside (place o) place o c refl (ap (λ y. is_holder y c) (sym e) ∙ q)

    from : place c ≡ inside → is_holder h c ≡ true
    from e = let (_, e', _, _) = owner v h place c (rw e refl) x in rw (e', e) ((==_iff c c).1 refl)

held-is_holder :
    (l : Lock) (k : Kernel) → lock_held_by_current_thread l k ≡ is_holder l.holder k.current
unfolding lock_held_by_current_thread is_holder
held-is_holder l k = elim (Option-cases l.holder) [ inl e ↦ rw e refl | inr (t, e) ↦ rw e refl ]

-- In every state that is reached from a lock's initialisation, in any interleaving with what the scheduler does,
-- at most one thread is past the lock's semaphore; and `lock_held_by_current_thread` is true of the
-- running thread exactly when it is between `lock_acquire` and `lock_release`.
pub mutual_exclusion :
    (k : Kernel) (m : System)
    → LockReach (fresh k) m
    → ((t u : ℕ) → critical (m.place t) ≡ true → critical (m.place u) ≡ true → t ≡ u)
      × ((lock_held_by_current_thread m.lock m.kernel ≡ true) ↔ (here m ≡ inside))
mutual_exclusion k m r =
    let x = LockReach-IsExclusive k m r in
    (
      λ t u a b. (owner _ _ m.place u b x).3 t a,
      rw (held-is_holder m.lock m.kernel) (holder-inside _ _ m.place m.kernel.current x),
    )
