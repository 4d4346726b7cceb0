-- ===== src/Userprog/Segments/Plan.antt =====
-- The loop of `load_segment` loads one page after another.
use project2_group.Base.{
  ℕ, zero, suc, ◌+◌, ◌-◌, ◌*◌, ◌%◌, ◌^◌, ◌≤◌, ◌<◌, ◌≡◌, refl, ap, fun_ext, arith, Bool, true, false,
  Run, ok, ◌>>=◌, ltb, ◌||◌, if◌then◌else◌,
}
use mathlib.Core.Path.{ap₂}
use project2_group.Userprog.Arguments.{phys_base}
use project2_group.Userprog.Segments.{Loader, load_page, load_loop}

-- How much of the `i`th page of `read` bytes is read.
abbrev pub share : ℕ → ℕ → ℕ
share read i = if ltb (read - 4096 * i) 4096 then read - 4096 * i else 4096

module _ {S : Type 0} (l : Loader S) (writable : Bool) (base read : ℕ) where
  -- `n` pages from the `i`th on, up to the first that fails: the `i`th lies at `base + 4096 * i`.
  unfoldable pub load_pages : (n i : ℕ) → S → Run (Bool × S)
  load_pages zero i s = ok (true, s)
  load_pages (suc n) i s = load_page l writable (base + 4096 * i) (share read i) s >>= λ r.
      if r.0 then load_pages n (i + 1) r.1 else ok r

  pub load_loop_lem :
      (n i fuel upage left cleared : ℕ) (s : S)
      → n < fuel
      → upage ≡ base + 4096 * i
      → left ≡ read - 4096 * i
      → left + cleared ≡ 4096 * n
      → upage + 4096 * n ≤ phys_base
      → load_loop l writable fuel upage left cleared s ≡ load_pages n i s
  unfolding load_loop load_pages
  load_loop_lem n i zero upage left cleared s f u e t b = absurd (omega arith)
  load_loop_lem zero i (suc fuel) upage left cleared s f u e t b =
      let stop : (ltb 0 left || ltb 0 cleared) ≡ false = ground arith in rw stop refl
  load_loop_lem (suc n) i (suc fuel) upage left cleared s f u e t b =
      let go : (ltb 0 left || ltb 0 cleared) ≡ true = ground arith in
      let count = if ltb left 4096 then left else 4096 in
      let small : count ≤ 4096 = ground arith in
      let some_left : count ≤ left = ground arith in
      let next_left : left - count ≡ left - 4096 = ground arith in
      let room : 4096 - count ≤ cleared = ground arith in
      let here : load_page l writable upage count s
          ≡ load_page l writable (base + 4096 * i) (share read i) s =
        ap₂ (λ p c. load_page l writable p c s) u (ap (λ x. if ltb x 4096 then x else 4096) e) in
      rw go (
        ap₂ ◌>>=◌ here (
          fun_ext (λ r.
            ap (λ rest. if r.0 then rest else ok r)
              (load_loop_lem n (i + 1) fuel ((upage + 4096) % 2 ^ 32) (left - count)
                ((cleared + 2 ^ 32 - (4096 - count)) % 2 ^ 32) r.1 (omega arith) (omega arith)
                (omega arith) (omega arith) (omega arith)))))
