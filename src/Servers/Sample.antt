-- ===== src/Servers/Sample.antt =====
-- Data for the tests of the programs over system calls.
use high_performance_linux_s.Base.{ℕ, ◌+◌, true, false, List, [], ◌∷◌, ℤ, pos, length}
use high_performance_linux_s.SystemCalls.{Libc, Reply}

abbrev pub libc : Libc
libc = record {
  atoi = λ s. pos (length s);
  htons = λ n. 80;
  inet_pton = λ s. length s;
  non_blocking = λ f. f + 2048;
}

abbrev pub returning : ℤ → Reply
returning n = record {
  ret = n;
  errno = 0;
  bytes = [];
  value = 0;
  flag = true;
  urgent = false;
  directory = false;
  readable = true;
  ends = (pos 8, pos 9);
  events = [];
}

abbrev pub two_arguments : List (List ℕ)
two_arguments = [] ∷ (b'1' ∷ []) ∷ (b'2' ∷ []) ∷ []

abbrev pub three_arguments : List (List ℕ)
three_arguments = [] ∷ (b'1' ∷ []) ∷ (b'2' ∷ []) ∷ (b'3' ∷ []) ∷ []
