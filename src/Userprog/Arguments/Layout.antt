-- ===== src/Userprog/Arguments/Layout.antt =====
-- The stack that a new process starts with.
use project2_group.Base.{
  ℕ, suc, ◌+◌, ◌-◌, ◌*◌, ◌≤◌, ◌≡◌, refl, ap, subst, arith, List, [], ◌∷◌, ◌++◌, map, length,
  length-replicate, Run, ◌>>=◌, replicate,
}
use project2_group.Userprog.Arguments.{
  Stack, alignment, push_word, push_low, push_zeros, push_pointers, push_strings, push_arguments,
}
use project2_group.Userprog.Arguments.Pushing.{
  IsPushed, IsClear, IsPushed-IsClear, IsPushed-then, Pushes, Pushes-then, nothing-IsPushed,
  low_word, word, push_word-IsPushed, push_low-IsPushed, push_zeros-IsPushed,
}
use project2_group.Userprog.Arguments.Strings.{
  Argument, bytes, stored, strings, places, AllArguments, PushesStrings, push_strings-IsPushed,
}

abbrev pub words : List ℕ → List ℕ
words [] = []
words (w ∷ ws) = word w ++ words ws

pub length-words : (ws : List ℕ) → length (words ws) ≡ 4 * length ws
length-words [] = refl
length-words (w ∷ ws) = omega (arith, length-words ws)

pub length-places : (p : ℕ) (args : List Argument) → length (places p args) ≡ length args
length-places p [] = refl
length-places p (a ∷ args) = ap suc (length-places (p + length (stored a)) args)

pub length-map {ℓ κ} :
    {A : Type ℓ} {B : Type κ} (f : A → B) (xs : List A) → length (map f xs) ≡ length xs
length-map f [] = refl
length-map f (x ∷ xs) = ap suc (length-map f xs)

push_pointers-IsPushed :
    (ws : List ℕ) (n : ℕ) (st : Stack)
    → 4 * length ws ≤ n
    → IsClear n st
    → Pushes (push_pointers ws st) st (words ws)
unfolding push_pointers
push_pointers-IsPushed [] n st h c = (st, refl, nothing-IsPushed st)
push_pointers-IsPushed (w ∷ ws) n st h c =
    let l = length-words ws in
    Pushes-then (push_pointers ws st) (push_word w) n 4 st (words ws) (word w) (omega arith) c
      (push_pointers-IsPushed ws n st (omega arith) c)
      (λ st₁ e c₁. push_word-IsPushed w 4 st₁ (omega arith) c₁)

-- The part of `push_arguments` after the padding.
abbrev after_zeros : ℕ → ℕ → List ℕ → Stack → Run Stack
after_zeros ret argc ws st = push_low 0 st >>= λ st₁. push_pointers ws st₁ >>= λ st₂.
    push_word st₂.esp st₂ >>= λ st₃. push_low argc st₃ >>= push_low ret

after_zeros-IsPushed :
    (ret argc p : ℕ) (ws : List ℕ) (st : Stack)
    → p ≡ st.esp
    → IsClear (4 * length ws + 16) st
    → Pushes
        (after_zeros ret argc ws st)
        st
        ((low_word ret ++ low_word argc) ++ word (p - 4 - 4 * length ws) ++ words ws ++ low_word 0)
after_zeros-IsPushed ret argc p ws st q c =
    let n = 4 * length ws + 12 in
    let l = length-words ws in
    Pushes-then (push_low 0 st)
      (λ st₁. push_pointers ws st₁ >>= λ st₂.
        push_word st₂.esp st₂ >>= λ st₃. push_low argc st₃ >>= push_low ret)
      (4 * length ws + 16) n st (low_word 0)
      ((low_word ret ++ low_word argc) ++ word (p - 4 - 4 * length ws) ++ words ws) (omega arith) c
      (push_low-IsPushed 0 (4 * length ws + 16) st (omega arith) c)
      (λ st₁ e₁ c₁.
        Pushes-then (push_pointers ws st₁)
          (λ st₂. push_word st₂.esp st₂ >>= λ st₃. push_low argc st₃ >>= push_low ret) n 12 st₁
          (words ws) ((low_word ret ++ low_word argc) ++ word (p - 4 - 4 * length ws)) (omega arith)
          c₁ (push_pointers-IsPushed ws n st₁ (omega arith) c₁)
          (λ st₂ e₂ c₂.
            let argv : st₂.esp ≡ p - 4 - 4 * length ws = omega arith in
            Pushes-then (push_word st₂.esp st₂) (λ st₃. push_low argc st₃ >>= push_low ret) 12 8 st₂
              (word (p - 4 - 4 * length ws)) (low_word ret ++ low_word argc) (omega arith) c₂
              (subst (λ v. Pushes (push_word st₂.esp st₂) st₂ (word v)) argv
                (push_word-IsPushed st₂.esp 12 st₂ (omega arith) c₂))
              (λ st₃ e₃ c₃.
                Pushes-then (push_low argc st₃) (push_low ret) 8 4 st₃ (low_word argc)
                  (low_word ret) (omega arith) c₃ (push_low-IsPushed argc 8 st₃ (omega arith) c₃)
                  (λ st₄ e₄ c₄. push_low-IsPushed ret 4 st₄ (omega arith) c₄))))

-- What is pushed below the strings: the return address, argc, argv, the array that argv points to, and the padding.
abbrev pub frame : ℕ → ℕ → ℕ → List ℕ → List ℕ
frame ret argc p ws =
    ((low_word ret ++ low_word argc)
      ++ word (p - alignment p - 4 - 4 * length ws)
      ++ words ws
      ++ low_word 0)
    ++ replicate (alignment p) 0

pub alignment_bound : (p : ℕ) → alignment p ≤ 4
alignment_bound p = ground arith

pub length-zeros : (p : ℕ) → length (replicate {A = ℕ} (alignment p) 0) ≡ alignment p
length-zeros p = length-replicate (alignment p) 0

push_frame :
    (ret argc : ℕ) (ws : List ℕ) (st : Stack)
    → IsClear (4 * length ws + 20) st
    → Pushes
        (push_zeros (alignment st.esp) st >>= after_zeros ret argc ws)
        st
        (frame ret argc st.esp ws)
push_frame ret argc ws st c =
    let p = st.esp in
    let a = alignment_bound p in
    let z = length-zeros p in
    let n = 4 * length ws + 16 in
    Pushes-then (push_zeros (alignment p) st) (after_zeros ret argc ws) (4 * length ws + 20) n st
      (replicate (alignment p) 0)
      ((low_word ret ++ low_word argc)
        ++ word (p - alignment p - 4 - 4 * length ws)
        ++ words ws
        ++ low_word 0)
      (omega arith) c (push_zeros-IsPushed (alignment p) (4 * length ws + 20) st (omega arith) c)
      (λ st₁ e c₁. after_zeros-IsPushed ret argc (p - alignment p) ws st₁ (omega arith) c₁)

-- The whole stack, from the return address up to PHYS_BASE.
abbrev pub image : ℕ → ℕ → List Argument → List ℕ
image ret p args = frame ret (length args) p (places p args) ++ strings args

pub push_image :
    (ret : ℕ) (args : List Argument) (st : Stack)
    → AllArguments args
    → length (strings args) + 4 * length args + 20 ≤ 4096
    → IsClear 4096 st
    → Pushes
        (push_arguments ret (map bytes args) st)
        st
        (image ret (st.esp - length (strings args)) args)
unfolding push_arguments
push_image ret args st i h c =
    let k = length (strings args) in
    let r : PushesStrings (push_strings (map bytes args) st) st args =
      push_strings-IsPushed args 4096 st i (omega arith) c in
    let st₁ = r.0 in
    let ws = places st₁.esp args in
    let e = r.2.esp in
    let p : st₁.esp ≡ st.esp - k = omega arith in
    let l = length-places st₁.esp args in
    let c₁ : IsClear (4 * length ws + 20) st₁ =
      IsPushed-IsClear (4 * length ws + 20) 4096 (omega arith) r.2 c in
    let f : Pushes (push_zeros (alignment st₁.esp) st₁ >>= after_zeros ret (length args) ws) st₁
        (frame ret (length args) st₁.esp ws) =
      push_frame ret (length args) ws st₁ c₁ in
    let m = length-map bytes args in
    (
      f.0,
      rw (r.1, m) f.1,
      subst (λ q. IsPushed st f.0 (image ret q args)) p (IsPushed-then r.2 f.2),
    )
