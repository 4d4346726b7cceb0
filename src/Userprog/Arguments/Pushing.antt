-- ===== src/Userprog/Arguments/Pushing.antt =====
-- What each push leaves in memory.
use project2_group.Base.{
  ℕ, zero, suc, ◌+◌, ◌-◌, ◌/◌, ◌%◌, ◌^◌, ◌≤◌, ◌<◌, ◌≡◌, ◌≢◌, refl, sym, ap, ◌∙◌, subst, arith, true,
  List, [], ◌∷◌, ◌++◌, length, length-append, Run, ok, ◌>>=◌, ==_iff, ne_test, replicate,
}
use project2_group.Userprog.Arguments.{
  phys_base, Stack, is_mapped, write, store, push_byte, push_low, push_word, push_zeros,
}

-- From the address `a` on memory holds the bytes.
abbrev pub Holds : (ℕ → ℕ) → ℕ → List ℕ → Type 0
Holds m a [] = Unit {0}
Holds m a (b ∷ bs) = (m a ≡ b) × Holds m (a + 1) bs

pub Holds-frame :
    (m m' : ℕ → ℕ) (a : ℕ) (bs : List ℕ)
    → ((q : ℕ) → a ≤ q → m' q ≡ m q)
    → Holds m a bs
    → Holds m' a bs
Holds-frame m m' a [] same h = tt
Holds-frame m m' a (b ∷ bs) same (h, hs) =
    (same a (omega arith) ∙ h, Holds-frame m m' (a + 1) bs (λ q l. same q (omega arith)) hs)

pub Holds-append :
    (m : ℕ → ℕ) (a : ℕ) (xs ys : List ℕ)
    → Holds m a xs
    → Holds m (a + length xs) ys
    → Holds m a (xs ++ ys)
Holds-append m a [] ys h k = subst (λ t. Holds m t ys) (omega arith) k
Holds-append m a (x ∷ xs) ys (h, hs) k =
    (h, Holds-append m (a + 1) xs ys hs (subst (λ t. Holds m t ys) (omega arith) k))

-- The stack has grown by the bytes, and memory has changed nowhere else.
pub record IsPushed (st st' : Stack) (bytes : List ℕ) : Type 0 where
  pub esp : st'.esp + length bytes ≡ st.esp
  pub held : Holds st'.memory st'.esp bytes
  pub above : (q : ℕ) → st.esp ≤ q → st'.memory q ≡ st.memory q
  pub below : (q : ℕ) → q < st'.esp → st'.memory q ≡ st.memory q

-- There is room for `n` bytes in the page, and memory below the stack is 0.
pub record IsClear (n : ℕ) (st : Stack) : Type 0 where
  pub room : phys_base - 4096 + n ≤ st.esp
  pub bound : st.esp ≤ phys_base
  pub zeros : (q : ℕ) → q < st.esp → st.memory q ≡ 0

pub nothing-IsPushed : (st : Stack) → IsPushed st st []
nothing-IsPushed st = record {
  esp = omega arith;
  held = tt;
  above = λ q l. refl;
  below = λ q l. refl;
}

pub IsPushed-then :
    {st st' st'' : Stack} {xs ys : List ℕ}
    → IsPushed st st' xs
    → IsPushed st' st'' ys
    → IsPushed st st'' (ys ++ xs)
IsPushed-then {st} {st'} {st''} {xs} {ys} a b =
    let e = a.esp in
    let f = b.esp in
    record {
      esp = omega (arith, length-append ys xs);
      held = Holds-append st''.memory st''.esp ys xs b.held (
          subst (λ t. Holds st''.memory t xs) (sym f)
            (Holds-frame st'.memory st''.memory st'.esp xs b.above a.held));
      above = λ q l. b.above q (omega arith) ∙ a.above q l;
      below = λ q l. b.below q l ∙ a.below q (omega arith);
    }

pub IsPushed-IsClear :
    {st st' : Stack} {bytes : List ℕ} (n m : ℕ)
    → length bytes + n ≤ m
    → IsPushed st st' bytes
    → IsClear m st
    → IsClear n st'
IsPushed-IsClear n m h a c =
    let e = a.esp in
    let r = c.room in
    let b = c.bound in
    record {
      room = omega arith;
      bound = omega arith;
      zeros = λ q l. a.below q l ∙ c.zeros q (omega arith);
    }

-- A push that succeeds.
abbrev pub Pushes : Run Stack → Stack → List ℕ → Type 0
Pushes r st bytes = (st' : Stack) × (r ≡ ok st') × IsPushed st st' bytes

replicate_snoc {ℓ} : {A : Type ℓ} (k : ℕ) (a : A) → replicate k a ++ a ∷ [] ≡ replicate (suc k) a
replicate_snoc zero a = refl
replicate_snoc (suc k) a = ap (◌∷◌ a) (replicate_snoc k a)

write_self : (a v : ℕ) (m : ℕ → ℕ) → write a v m a ≡ v
write_self a v m = rw ((==_iff a a).1 refl) refl

write_other : (a v q : ℕ) (m : ℕ → ℕ) → q ≢ a → write a v m q ≡ m q
write_other a v q m d = rw (ne_test q a d) refl

pub push_byte-IsPushed :
    (v n : ℕ) (st : Stack) → 1 ≤ n → IsClear n st → Pushes (push_byte v st) st ((v % 256) ∷ [])
unfolding store
push_byte-IsPushed v n st h c =
    let r = c.room in
    let b = c.bound in
    let mapped : is_mapped (st.esp - 1) ≡ true = ground arith in
    let a = st.esp - 1 in
    (
      record { esp = a; memory = write a (v % 256) st.memory },
      rw mapped refl,
      record {
        esp = omega arith;
        held = (write_self a (v % 256) st.memory, tt);
        above = λ q l. write_other a (v % 256) q st.memory (λ e. omega arith);
        below = λ q l. write_other a (v % 256) q st.memory (λ e. omega arith);
      },
    )

-- A word of which only the lowest byte is stored.
abbrev pub low_word : ℕ → List ℕ
low_word v = (v % 256) ∷ 0 ∷ 0 ∷ 0 ∷ []

pub push_low-IsPushed :
    (v n : ℕ) (st : Stack) → 4 ≤ n → IsClear n st → Pushes (push_low v st) st (low_word v)
unfolding store
push_low-IsPushed v n st h c =
    let r = c.room in
    let b = c.bound in
    let mapped : is_mapped (st.esp - 4) ≡ true = ground arith in
    let a = st.esp - 4 in
    let zero_at : (q : ℕ) → q ≢ a → q < st.esp → write a (v % 256) st.memory q ≡ 0 =
      λ q d l. write_other a (v % 256) q st.memory d ∙ c.zeros q l in
    (
      record { esp = a; memory = write a (v % 256) st.memory },
      rw mapped refl,
      record {
        esp = omega arith;
        held = (
          write_self a (v % 256) st.memory,
          (
            zero_at (a + 1) (λ e. omega arith) (omega arith),
            (
              zero_at (a + 1 + 1) (λ e. omega arith) (omega arith),
              (zero_at (a + 1 + 1 + 1) (λ e. omega arith) (omega arith), tt),
            ),
          ),
        );
        above = λ q l. write_other a (v % 256) q st.memory (λ e. omega arith);
        below = λ q l. write_other a (v % 256) q st.memory (λ e. omega arith);
      },
    )

-- A push into the room for `m` bytes and one into the `n` bytes that are left.
pub Pushes-then :
    (r : Run Stack) (f : Stack → Run Stack) (m n : ℕ) (st : Stack) (xs ys : List ℕ)
    → length xs + n ≤ m
    → IsClear m st
    → Pushes r st xs
    → ((st' : Stack) → st'.esp + length xs ≡ st.esp → IsClear n st' → Pushes (f st') st' ys)
    → Pushes (r >>= f) st (ys ++ xs)
Pushes-then r f m n st xs ys h c (st', e, a) next =
    let k : Pushes (f st') st' ys = next st' a.esp (IsPushed-IsClear n m h a c) in
    (k.0, rw e k.1, IsPushed-then a k.2)

-- The bytes of a word, the lowest one first.
abbrev pub word : ℕ → List ℕ
word v = (v % 256) ∷ (v / 2 ^ 8 % 256) ∷ (v / 2 ^ 16 % 256) ∷ (v / 2 ^ 24 % 256) ∷ []

pub push_word-IsPushed :
    (v n : ℕ) (st : Stack) → 4 ≤ n → IsClear n st → Pushes (push_word v st) st (word v)
unfolding push_word
push_word-IsPushed v n st h c =
    Pushes-then (push_byte (v / 2 ^ 24) st)
      (λ st₁. push_byte (v / 2 ^ 16) st₁ >>= λ st₂. push_byte (v / 2 ^ 8) st₂ >>= push_byte v) n 3
      st ((v / 2 ^ 24 % 256) ∷ []) ((v % 256) ∷ (v / 2 ^ 8 % 256) ∷ (v / 2 ^ 16 % 256) ∷ []) h c
      (push_byte-IsPushed (v / 2 ^ 24) n st (omega arith) c)
      (λ st₁ e c₁.
        Pushes-then (push_byte (v / 2 ^ 16) st₁) (λ st₂. push_byte (v / 2 ^ 8) st₂ >>= push_byte v)
          3 2 st₁ ((v / 2 ^ 16 % 256) ∷ []) ((v % 256) ∷ (v / 2 ^ 8 % 256) ∷ []) (omega arith) c₁
          (push_byte-IsPushed (v / 2 ^ 16) 3 st₁ (omega arith) c₁)
          (λ st₂ e c₂.
            Pushes-then (push_byte (v / 2 ^ 8) st₂) (push_byte v) 2 1 st₂ ((v / 2 ^ 8 % 256) ∷ [])
              ((v % 256) ∷ []) (omega arith) c₂
              (push_byte-IsPushed (v / 2 ^ 8) 2 st₂ (omega arith) c₂)
              (λ st₃ e c₃. push_byte-IsPushed v 1 st₃ (omega arith) c₃)))

pub push_zeros-IsPushed :
    (k n : ℕ) (st : Stack) → k ≤ n → IsClear n st → Pushes (push_zeros k st) st (replicate k 0)
unfolding push_zeros
push_zeros-IsPushed zero n st h c = (st, refl, nothing-IsPushed st)
push_zeros-IsPushed (suc k) n st h c =
    subst (Pushes (push_byte 0 st >>= push_zeros k) st) (replicate_snoc k 0) (
      Pushes-then (push_byte 0 st) (push_zeros k) n k st (0 ∷ []) (replicate k 0) (omega arith) c
        (push_byte-IsPushed 0 n st (omega arith) c)
        (λ st₁ e c₁. push_zeros-IsPushed k k st₁ (omega arith) c₁))
