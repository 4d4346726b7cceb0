-- ===== src/Userprog/Descriptors/Tests.antt =====
-- The calls over a file system that only counts: its state is the number of files opened and of those closed.
use project2_group.Base.{
  ℕ, zero, suc, ◌+◌, ◌≤◌, ◌<◌, ◌≡◌, refl, arith, false, Option, none, some, List, [], ◌∷◌, Run, ok,
  fault, length, replicate, get_or, ltb, if◌then◌else◌,
}
use project2_group.Userprog.Descriptors.{pos, negsuc, Files, Process, Outcome, open', close_files}
use project2_group.Userprog.Descriptors.Opening.{slot, IsTable, IsOpening, open'_lem}
use project2_group.Userprog.Descriptors.Using.{close_files_lem}
use project2_group.Userprog.Descriptors.Model.{
  opening, length_of, reading, writing, seeking, telling, closing, Answer, Map, Call, run_calls,
  promise, promises, on_file, enter,
}
use project2_group.Userprog.Descriptors.Keeping.{view}
use project2_group.Userprog.Descriptors.Refinement.{KeepsAll, run_calls-promises}
use project2_group.Userprog.Descriptors.Calls.{Crashes, closed_descriptor}

record Counts : Type 0 where
  opened : ℕ
  closed : ℕ

-- The empty name is that of no file.
abbrev counting : Files Counts
counting = record {
  filesys_open = λ name s.
      if ltb 0 (length name)
      then ok (some s.opened, record s { opened = s.opened + 1 })
      else ok (none, s);
  file_close = λ q s. if ltb q s.opened then ok (record s { closed = s.closed + 1 }) else fault;
  file_length = λ q s. ok (100 + q);
  file_read = λ q size s. ok (size, replicate size q, s);
  file_write = λ q buffer s. ok (length buffer, s);
  file_seek = λ q position s. ok s;
  file_tell = λ q s. ok 0;
  is_dir = λ q s. ok false;
  input_getc = λ s. ok (10, s);
  putbuf = λ buffer s. ok s;
}

-- One file, at descriptor 2.
abbrev one_file : List (Option ℕ)
one_file = none ∷ none ∷ some 0 ∷ replicate 127 none

abbrev sample : Process Counts
sample = record {
  fd_index = 3;
  file_pointers = one_file;
  sema_files = 1;
  system = record { opened = 1; closed = 0 };
}

get_or-replicate : (n i : ℕ) → get_or (replicate {A = Option ℕ} n none) i none ≡ none
get_or-replicate zero i = refl
get_or-replicate (suc n) zero = refl
get_or-replicate (suc n) (suc i) = get_or-replicate n i

sample_low : (fd : ℕ) → fd < 2 → slot sample fd ≡ none
sample_low zero h = refl
sample_low (suc zero) h = refl
sample_low (suc (suc fd)) h = absurd (omega arith)

sample_unused : (fd : ℕ) → 3 ≤ fd → slot sample fd ≡ none
sample_unused zero h = absurd (omega arith)
sample_unused (suc zero) h = absurd (omega arith)
sample_unused (suc (suc zero)) h = absurd (omega arith)
sample_unused (suc (suc (suc fd))) h = get_or-replicate 127 fd

sample-IsTable : IsTable sample
sample-IsTable = record {
  size = refl;
  first = omega arith;
  last = omega arith;
  low = sample_low;
  unused = sample_unused;
  free = refl;
}

open'_lem_example :
    (out : Outcome Counts) × (open' counting (97 ∷ []) sample ≡ ok out)
    × IsOpening sample (record { opened = 2; closed = 0 }) (some 1) out
open'_lem_example =
    open'_lem counting (97 ∷ []) sample (record { opened = 2; closed = 0 }) (some 1) sample-IsTable
      (omega arith) refl

close_files_lem_example :
    close_files counting sample
    ≡ ok (record sample {
      file_pointers = replicate 130 none;
      system = record { opened = 1; closed = 1 };
    })
close_files_lem_example = close_files_lem counting sample sample-IsTable

closed_descriptor_example : Crashes counting 3 sample
closed_descriptor_example =
    closed_descriptor counting sample 3 sample-IsTable (omega arith) (omega arith) (omega arith)
      refl

-- A second file is opened, written, read and closed; the name of no file is opened; the first file is read.
abbrev sample_calls : List Call
sample_calls =
    opening (97 ∷ [])
    ∷ writing 3 (7 ∷ 8 ∷ [])
    ∷ seeking 3 0
    ∷ reading 3 2
    ∷ telling 3
    ∷ length_of 3
    ∷ closing 3
    ∷ opening []
    ∷ reading 2 1
    ∷ []

abbrev sample_answers : List Answer
sample_answers =
    ([], pos 3)
    ∷ ([], pos 2)
    ∷ ([], pos 0)
    ∷ (1 ∷ 1 ∷ [], pos 2)
    ∷ ([], pos 0)
    ∷ ([], pos 101)
    ∷ ([], pos 0)
    ∷ ([], negsuc 0)
    ∷ (0 ∷ [], pos 1)
    ∷ []

abbrev answers_of : {S : Type 0} → Run (Option (List Answer × Map S)) → List Answer
answers_of (ok (some q)) = q.0
answers_of r = []

promised_answers : answers_of (promises counting sample_calls (view sample)) ≡ sample_answers
unfolding promises promise on_file enter
promised_answers = refl

run_calls-promises_example :
    KeepsAll (promises counting sample_calls (view sample)) (run_calls counting sample_calls sample)
run_calls-promises_example = run_calls-promises counting sample_calls sample sample-IsTable
