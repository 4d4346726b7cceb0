-- ===== src/Userprog/Descriptors/Keeping.antt =====
-- Each call on files, where the map from descriptors to files promises something of it.
use project2_group.Base.{
  ℕ, zero, suc, ◌<◌, ◌≡◌, ◌≢◌, refl, ap, ◌∙◌, fun_ext, inl, inr, arith, Bool, true, false, Option,
  none, some, List, [], ◌∷◌, Run, ok, panic, fault, out_of_fuel, ◌>>=◌, length, length-set, get_or,
  get_or-set_self, get_or-set_ne, set, ltb, ◌==◌, ==_iff, if◌then◌else◌, Bool-cases,
}
use project2_group.Userprog.Descriptors.{pos, negsuc, Files, Process, Outcome, returns, open'}
use project2_group.Userprog.Descriptors.Opening.{slot, IsTable, HasOpened, open'_lem}
use project2_group.Userprog.Descriptors.Calls.{used_range, open_descriptor}
use project2_group.Userprog.Descriptors.Model.{
  opening, length_of, reading, writing, seeking, telling, closing, Answer, Map, assign, perform,
  answered, on_file, enter, promise,
}

module _ {S : Type 0} where
  -- The map that a table stands for.
  abbrev pub view : Process S → Map S
  view p = record { next = p.fd_index; file = slot p; system = p.system }

  abbrev pub Represents : Process S → Map S → Type 0
  Represents p m = IsTable p × (view p ≡ m)

  -- One call: if something is promised, the code fails in the same way or gives the promised answer.
  abbrev pub Keeps : Run (Option (Answer × Map S)) → Run (List ℕ × Outcome S) → Type 0
  Keeps (ok none) r = Unit {0}
  Keeps (ok (some (a, m))) r = (p : Process S) × (r ≡ ok (a.0, returns a.1 p)) × Represents p m
  Keeps panic r = r ≡ panic
  Keeps fault r = r ≡ fault
  Keeps out_of_fuel r = r ≡ out_of_fuel

  Keeps-bind :
      {A : Type 0} (r : Run A) (g : A → Run (Option (Answer × Map S)))
      (h : A → Run (List ℕ × Outcome S))
      → ((a : A) → Keeps (g a) (h a))
      → Keeps (r >>= g) (r >>= h)
  Keeps-bind (ok a) g h k = k a
  Keeps-bind panic g h k = refl
  Keeps-bind fault g h k = refl
  Keeps-bind out_of_fuel g h k = refl

  -- Another state of the file system.
  moved_on : (p : Process S) (s : S) → IsTable p → IsTable (record p { system = s })
  moved_on p s t = record {
    size = t.size;
    first = t.first;
    last = t.last;
    low = t.low;
    unused = t.unused;
    free = t.free;
  }

  Keeps-chain :
      {A B : Type 0} (r : Run A) (g : A → Run (Option (Answer × Map S))) (h : A → Run B)
      (k : B → Run (List ℕ × Outcome S))
      → ((a : A) → Keeps (g a) (h a >>= k))
      → Keeps (r >>= g) (r >>= h >>= k)
  Keeps-chain (ok a) g h k c = c a
  Keeps-chain panic g h k c = refl
  Keeps-chain fault g h k c = refl
  Keeps-chain out_of_fuel g h k c = refl

slot-set :
    (xs : List (Option ℕ)) (fd d : ℕ) (o : Option ℕ)
    → fd < length xs
    → get_or (set xs fd o) d none ≡ (if d == fd then o else get_or xs d none)
slot-set xs fd d o h = elim (Bool-cases (d == fd)) [
  | inl e ↦ rw (e, (==_iff d fd).0 e) (get_or-set_self xs fd o none h)
  | inr e ↦ (let n : fd ≢ d = λ q. ground arith in rw e (get_or-set_ne xs fd d o none n))
]

stays_none :
    (xs : List (Option ℕ)) (fd d : ℕ)
    → get_or xs d none ≡ none
    → get_or (set xs fd none) d none ≡ none
stays_none [] fd d e = refl
stays_none (x ∷ xs) zero zero e = refl
stays_none (x ∷ xs) zero (suc d) e = e
stays_none (x ∷ xs) (suc fd) zero e = e
stays_none (x ∷ xs) (suc fd) (suc d) e = stays_none xs fd d e

same_map :
    {S : Type 0} (m m' : Map S)
    → m.next ≡ m'.next
    → m.file ≡ m'.file
    → m.system ≡ m'.system
    → m ≡ m'
same_map m m' a b c = λ i. record { next = a i; file = b i; system = c i }

module _ {S : Type 0} (f : Files S) (p : Process S) (t : IsTable p) where
  system-Represents :
      (s : S) → Represents (record p { system = s }) (record (view p) { system = s })
  system-Represents s = (moved_on p s t, refl)

  closed-IsTable :
      (fd : ℕ) (s : S)
      → IsTable (record p { file_pointers = set p.file_pointers fd none; system = s })
  closed-IsTable fd s = record {
    size = length-set p.file_pointers fd none ∙ t.size;
    first = t.first;
    last = t.last;
    low = λ d h. stays_none p.file_pointers fd d (t.low d h);
    unused = λ d h. stays_none p.file_pointers fd d (t.unused d h);
    free = t.free;
  }

  pub closing-Keeps :
      (fd q : ℕ)
      → slot p fd ≡ some q
      → Keeps (on_file f (closing fd) q (view p)) (perform f (closing fd) p)
  unfolding on_file perform
  closing-Keeps fd q e =
      let r = open_descriptor f p fd q t e in
      let (low, high) = used_range f p fd q t e in
      let size = t.size in
      let last = t.last in
      let files : (λ d. get_or (set p.file_pointers fd none) d none) ≡ assign fd none (slot p) =
        fun_ext (λ d. slot-set p.file_pointers fd d none (omega arith)) in
      rw r.close (
        Keeps-chain (f.file_close q p.system) _ _ _ (λ s. (
          record p { file_pointers = set p.file_pointers fd none; system = s },
          refl,
          (closed-IsTable fd s, ap (λ g. record { next = p.fd_index; file = g; system = s }) files),
        )))

  pub writing-Keeps :
      (fd q : ℕ) (buffer : List ℕ)
      → slot p fd ≡ some q
      → Keeps (on_file f (writing fd buffer) q (view p)) (perform f (writing fd buffer) p)
  unfolding on_file perform
  writing-Keeps fd q buffer e =
      let r = open_descriptor f p fd q t e in
      rw (r.write buffer) (Keeps-chain (f.is_dir q p.system) _ _ _ after)
    where
      after :
          (directory : Bool)
          → Keeps
              (if directory
                then answered f [] (negsuc 0) (view p)
                else (f.file_write q buffer p.system >>= λ r.
                    answered f [] (pos r.0) (record (view p) { system = r.1 })))
              ((if directory
                  then ok (returns (negsuc 0) p)
                  else (f.file_write q buffer p.system >>= λ r.
                      ok (returns (pos r.0) (record p { system = r.1 }))))
                >>= λ out. ok ([], out))
      after true = (p, refl, (t, refl))
      after false =
          Keeps-chain (f.file_write q buffer p.system) _ _ _
            (λ r. (record p { system = r.1 }, refl, system-Represents r.1))

  pub length_of-Keeps :
      (fd q : ℕ)
      → slot p fd ≡ some q
      → Keeps (on_file f (length_of fd) q (view p)) (perform f (length_of fd) p)
  unfolding on_file perform
  length_of-Keeps fd q e =
      let r = open_descriptor f p fd q t e in
      rw r.filesize (Keeps-chain (f.file_length q p.system) _ _ _ (λ n. (p, refl, (t, refl))))

  pub telling-Keeps :
      (fd q : ℕ)
      → slot p fd ≡ some q
      → Keeps (on_file f (telling fd) q (view p)) (perform f (telling fd) p)
  unfolding on_file perform
  telling-Keeps fd q e =
      let r = open_descriptor f p fd q t e in
      rw r.tell (Keeps-chain (f.file_tell q p.system) _ _ _ (λ n. (p, refl, (t, refl))))

  pub seeking-Keeps :
      (fd q : ℕ) (position : ℕ)
      → slot p fd ≡ some q
      → Keeps (on_file f (seeking fd position) q (view p)) (perform f (seeking fd position) p)
  unfolding on_file perform
  seeking-Keeps fd q position e =
      let r = open_descriptor f p fd q t e in
      rw (r.seek position) (
        Keeps-chain (f.file_seek q position p.system) _ _ _
          (λ s. (record p { system = s }, refl, system-Represents s)))

  pub reading-Keeps :
      (fd q : ℕ) (size : ℕ)
      → slot p fd ≡ some q
      → Keeps (on_file f (reading fd size) q (view p)) (perform f (reading fd size) p)
  unfolding on_file perform
  reading-Keeps fd q size e =
      let r = open_descriptor f p fd q t e in
      rw (r.read size) (
        Keeps-bind (f.file_read q size p.system) _ _
          (λ r. (record p { system = r.2 }, refl, system-Represents r.2)))

  assign-eq :
      (p' : Process S) (s : S) (q : ℕ)
      → HasOpened p p' s q
      → slot p' ≡ assign p.fd_index (some q) (slot p)
  assign-eq p' s q o = fun_ext (λ d. elim (Bool-cases (d == p.fd_index)) [
    | inl h ↦ rw (h, (==_iff d p.fd_index).0 h) o.entered
    | inr h ↦ (let n : d ≢ p.fd_index = λ x. ground arith in rw h (o.others d n))
  ])

  pub opening-Keeps :
      (name : List ℕ) → Keeps (promise f (opening name) (view p)) (perform f (opening name) p)
  unfolding promise perform enter open'
  opening-Keeps name = elim (Bool-cases (ltb p.fd_index 130)) [
    | inl h ↦ rw h (given (f.filesys_open name p.system) refl (ground arith))
    | inr h ↦ rw h tt
  ]
    where
      given :
          (r : Run (Option ℕ × S))
          → f.filesys_open name p.system ≡ r
          → p.fd_index < 130
          → Keeps
              (r >>= λ o. enter f o.0 (record (view p) { system = o.1 }))
              (open' f name p >>= λ out. ok ([], out))
      given (ok (none, s)) e h =
          let (out, q, o) = open'_lem f name p s none t h e in
          (record p { system = s }, rw (q, o) refl, system-Represents s)
      given (ok (some q, s)) e h =
          let (out, run, (p', o, opened)) = open'_lem f name p s (some q) t h e in
          (
            p',
            rw (run, o) refl,
            (opened.table, same_map _ _ opened.next (assign-eq p' s q opened) opened.system),
          )
      given panic e h = rw (t.free, e) refl
      given fault e h = rw (t.free, e) refl
      given out_of_fuel e h = rw (t.free, e) refl
