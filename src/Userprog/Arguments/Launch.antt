-- ===== src/Userprog/Arguments/Launch.antt =====
-- What a new process reads from its stack: its return address, argc, argv and the arguments.
use project2_group.Base.{
  ℕ, ◌+◌, ◌-◌, ◌*◌, ◌/◌, ◌%◌, ◌^◌, ◌≤◌, ◌<◌, ◌≡◌, refl, sym, ap, ◌∙◌, subst, arith, List, [], ◌∷◌,
  ◌++◌, map, length, length-append, ok, replicate,
}
use project2_group.Userprog.Arguments.{phys_base, Stack, alignment, push_arguments}
use project2_group.Userprog.Arguments.Pushing.{Holds, IsClear, low_word, word}
use project2_group.Userprog.Arguments.Strings.{
  Argument, bytes, text_of, stored, strings, places, AllArguments,
}
use project2_group.Userprog.Arguments.Layout.{
  length-map, words, image, push_image, length-words, length-places, alignment_bound, length-zeros,
}

-- The word at an address, the lowest byte first.
abbrev pub word_at : (ℕ → ℕ) → ℕ → ℕ
word_at m a = m a + 2 ^ 8 * m (a + 1) + 2 ^ 16 * m (a + 2) + 2 ^ 24 * m (a + 3)

-- The array at the address points to the texts, each with its terminator, and ends in a null pointer.
abbrev pub PointsTo : (ℕ → ℕ) → ℕ → List (List ℕ) → Type 0
PointsTo m a [] = word_at m a ≡ 0
PointsTo m a (t ∷ texts) = Holds m (word_at m a) (t ++ 0 ∷ []) × PointsTo m (a + 4) texts

-- A stack with the return address at its top, argc, argv, and the array that argv points to.
pub record IsLaunched (st : Stack) (texts : List (List ℕ)) : Type 0 where
  pub aligned : st.esp % 4 ≡ 0
  pub bound : phys_base - 4096 ≤ st.esp
  pub argc : word_at st.memory (st.esp + 4) ≡ length texts
  pub argv : word_at st.memory (st.esp + 8) ≡ st.esp + 12
  pub strings : PointsTo st.memory (st.esp + 12) texts

word_split :
    (v : ℕ)
    → v < 2 ^ 32
    → v % 256
        + 2 ^ 8 * (v / 2 ^ 8 % 256)
        + 2 ^ 16 * (v / 2 ^ 16 % 256)
        + 2 ^ 24 * (v / 2 ^ 24 % 256)
      ≡ v
word_split v h = omega arith

Holds-word :
    (m : ℕ → ℕ) (a v : ℕ) (bs : List ℕ)
    → v < 2 ^ 32
    → Holds m a (word v ++ bs)
    → (word_at m a ≡ v) × Holds m (a + 4) bs
Holds-word m a v bs h (b₀, (b₁, (b₂, (b₃, rest)))) =
    let two : m (a + 2) ≡ v / 2 ^ 16 % 256 = subst (λ q. m q ≡ v / 2 ^ 16 % 256) (omega arith) b₂ in
    let three : m (a + 3) ≡ v / 2 ^ 24 % 256 =
      subst (λ q. m q ≡ v / 2 ^ 24 % 256) (omega arith) b₃ in
    let s = word_split v h in (omega arith, subst (λ q. Holds m q bs) (omega arith) rest)

Holds-low_word :
    (m : ℕ → ℕ) (a v : ℕ) (bs : List ℕ)
    → Holds m a (low_word v ++ bs)
    → (word_at m a ≡ v % 256) × Holds m (a + 4) bs
Holds-low_word m a v bs (b₀, (b₁, (b₂, (b₃, rest)))) =
    let two : m (a + 2) ≡ 0 = subst (λ q. m q ≡ 0) (omega arith) b₂ in
    let three : m (a + 3) ≡ 0 = subst (λ q. m q ≡ 0) (omega arith) b₃ in
    (omega arith, subst (λ q. Holds m q bs) (omega arith) rest)

Holds-split :
    (m : ℕ → ℕ) (a : ℕ) (xs ys : List ℕ)
    → Holds m a (xs ++ ys)
    → Holds m a xs × Holds m (a + length xs) ys
Holds-split m a [] ys h = (tt, subst (λ q. Holds m q ys) (omega arith) h)
Holds-split m a (x ∷ xs) ys (b, h) =
    let (f, g) = Holds-split m (a + 1) xs ys h in
    ((b, f), subst (λ q. Holds m q ys) (omega arith) g)

pointers :
    (m : ℕ → ℕ) (a p : ℕ) (args : List Argument)
    → p + length (strings args) < 2 ^ 32
    → Holds m a (words (places p args) ++ low_word 0)
    → Holds m p (strings args)
    → PointsTo m a (map text_of args)
pointers m a p [] l h k = (Holds-word m a 0 [] (omega arith) h).0
pointers m a p (arg ∷ args) l h k =
    let q = p + length (stored arg) in
    let s = length-append (stored arg) (strings args) in
    let w = Holds-word m a p (words (places q args) ++ low_word 0) (omega arith) h in
    let t = Holds-split m p (stored arg) (strings args) k in
    (
      subst (λ r. Holds m r (stored arg)) (sym w.0) t.0,
      pointers m (a + 4) q args (omega arith) w.1 t.1,
    )

-- The address of the array that argv points to.
abbrev array : ℕ → List Argument → ℕ
array p args = p - alignment p - 4 - 4 * length (places p args)

abbrev after_argv : ℕ → List Argument → List ℕ
after_argv p args =
    ((words (places p args) ++ low_word 0) ++ replicate (alignment p) 0) ++ strings args

length-after_argv :
    (p : ℕ) (args : List Argument)
    → length (after_argv p args) ≡ 4 * length args + 4 + alignment p + length (strings args)
length-after_argv p args =
    let ws = words (places p args) in
    omega (
      arith,
      length-append ((ws ++ low_word 0) ++ replicate (alignment p) 0) (strings args),
      length-append (ws ++ low_word 0) (replicate (alignment p) 0),
      length-append ws (low_word 0),
      length-words (places p args),
      length-places p args,
      length-zeros p,
    )

array_aligned : (p : ℕ) → 4 ≤ p → (p - alignment p) % 4 ≡ 0
array_aligned p h = ground arith

launched :
    (ret k : ℕ) (args : List Argument) (st : Stack)
    → length args ≤ 255
    → k ≡ length (strings args)
    → k + 4 * length args + 20 ≤ 4096
    → st.esp + length (image ret (phys_base - k) args) ≡ phys_base
    → Holds st.memory st.esp (image ret (phys_base - k) args)
    → IsLaunched st (map text_of args)
launched ret k args st n s h e held =
    let p = phys_base - k in
    let m = st.memory in
    let al = alignment_bound p in
    let l = length-after_argv p args in
    let lp = length-places p args in
    let w₁ =
      Holds-low_word m st.esp ret
        (low_word (length args) ++ word (array p args) ++ after_argv p args) held in
    let w₂ =
      Holds-low_word m (st.esp + 4) (length args) (word (array p args) ++ after_argv p args) w₁.1 in
    let bound : array p args < 2 ^ 32 = omega arith in
    let w₃ = Holds-word m (st.esp + 4 + 4) (array p args) (after_argv p args) bound w₂.1 in
    let place : st.esp + 12 ≡ array p args = omega arith in
    let below = (words (places p args) ++ low_word 0) ++ replicate (alignment p) 0 in
    let t₁ = Holds-split m (st.esp + 4 + 4 + 4) below (strings args) w₃.1 in
    let t₂ =
      Holds-split m (st.esp + 4 + 4 + 4) (words (places p args) ++ low_word 0)
        (replicate (alignment p) 0) t₁.0 in
    let split = length-append below (strings args) in
    let top : st.esp + 4 + 4 + 4 + length below ≡ p = omega arith in
    let al₄ = array_aligned p (omega arith) in
    record {
      aligned = omega arith;
      bound = omega arith;
      argc = w₂.0 ∙ (omega (arith, length-map text_of args));
      argv = ap (word_at m) (omega arith) ∙ w₃.0 ∙ sym place;
      strings =
          subst (λ q. PointsTo m q (map text_of args)) (omega arith)
            (pointers m (st.esp + 4 + 4 + 4) p args (omega arith) t₂.0
              (subst (λ q. Holds m q (strings args)) top t₁.1));
    }

-- A process whose arguments are 255 at most, nonempty texts without a 0, and fit in a page that holds only zeros,
-- with four bytes more for each and twenty more in all: `setup_stack` pushes without a fault and
-- leaves the stack pointer a multiple of 4, in the page, with argc above the return address, argv after it, and in
-- the array that argv points to the address of each argument, in order, with its terminator, and a null pointer.
pub push_arguments_lem :
    (ret : ℕ) (args : List Argument) (st : Stack)
    → AllArguments args
    → length args ≤ 255
    → length (strings args) + 4 * length args + 20 ≤ 4096
    → IsClear 4096 st
    → (st' : Stack) × (push_arguments ret (map bytes args) st ≡ ok st')
      × IsLaunched st' (map text_of args)
push_arguments_lem ret args st i n h c =
    let k = length (strings args) in
    let r = push_image ret args st i h c in
    let room = c.room in
    let top = c.bound in
    let e : st.esp ≡ phys_base = omega arith in
    let image_eq = ap (λ q. image ret (q - k) args) e in
    let size = r.2.esp in
    (
      r.0,
      r.1,
      launched ret k args r.0 n refl h
          (subst (λ b. r.0.esp + length b ≡ phys_base) image_eq (size ∙ e))
          (subst (Holds r.0.memory r.0.esp) image_eq r.2.held),
    )
