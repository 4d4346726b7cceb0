-- ===== src/Devices/Intq/Tests.antt =====
-- Runs of a queue at the end of its ring: with two bytes round the end, and empty with a thread that waits.
use project2_group.Base.{◌≡◌, refl, false, none, some, [], ◌∷◌, ◌++◌, ok, replicate, arith}
use project2_group.Threads.Sample.{kernel, kernel-IsValid}
use project2_group.Devices.Intq.{Intq, intq_empty, intq_full, intq_getc, intq_init, signal}
use project2_group.Devices.Intq.Queue.{IsQueue}
use project2_group.Devices.Intq.Bytes.{Puts, Gets, intq_putc_lem, intq_getc_lem}

abbrev two_bytes : Intq
two_bytes = record {
  not_full = none;
  not_empty = none;
  buf = 8 ∷ replicate 62 0 ++ 7 ∷ [];
  head = 1;
  tail = 63;
}

abbrev no_bytes : Intq
no_bytes = record two_bytes { not_empty = some 40; head = 63 }

two_bytes-IsQueue : IsQueue two_bytes (7 ∷ 8 ∷ [])
two_bytes-IsQueue = record {
  size = refl;
  tail_bound = omega arith;
  head_at = refl;
  room = omega arith;
  held = (refl, (refl, tt));
}

no_bytes-IsQueue : IsQueue no_bytes []
no_bytes-IsQueue = record {
  size = refl;
  tail_bound = omega arith;
  head_at = refl;
  room = omega arith;
  held = tt;
}

getc_test : intq_getc false two_bytes kernel ≡ ok (some 7, record two_bytes { tail = 0 }, kernel)
unfolding intq_getc intq_empty intq_full signal
getc_test = refl

init_test : IsQueue (intq_init (replicate 64 3)) []
unfolding intq_init
init_test = record {
  size = refl;
  tail_bound = omega arith;
  head_at = refl;
  room = omega arith;
  held = tt;
}

intq_putc_lem_example : Puts 9 no_bytes kernel [] false
intq_putc_lem_example = intq_putc_lem 9 no_bytes kernel [] no_bytes-IsQueue kernel-IsValid refl

intq_getc_lem_example : Gets two_bytes kernel (7 ∷ 8 ∷ [])
intq_getc_lem_example =
    intq_getc_lem two_bytes kernel (7 ∷ 8 ∷ []) two_bytes-IsQueue kernel-IsValid tt
