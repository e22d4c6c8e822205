-- ===== src/HttpParse/Writes.antt =====
-- Writes inside the buffer.
use high_performance_linux_s.Base.{
  ℕ, ◌<◌, ◌≡◌, some, List, arith, length, get_elem?, set, length-set, lt→ltb, get_elem?_bound,
}
use high_performance_linux_s.HttpParse.{write}

pub write-ok : (buf : List ℕ) (i x : ℕ) → i < length buf → write buf i x ≡ some (set buf i x)
unfolding write
write-ok buf i x b = rw (lt→ltb _ _ b)

-- Where a byte is read it can be written, before and behind another write.
pub write-read :
    (buf : List ℕ) (i x v : ℕ) → get_elem? buf i ≡ some v → write buf i x ≡ some (set buf i x)
write-read buf i x v e = write-ok buf i x (get_elem?_bound buf i v e)

pub write-second :
    (buf : List ℕ) (i x j y v : ℕ)
    → get_elem? buf j ≡ some v
    → write (set buf i x) j y ≡ some (set (set buf i x) j y)
write-second buf i x j y v e =
    write-ok (set buf i x) j y (omega (arith, length-set buf i x, get_elem?_bound buf j v e))
