-- ===== src/CheckEndian/Tests.antt =====
-- The two usual orders.
use high_performance_linux_s.Base.{◌/◌, ◌%◌, ◌≡◌, refl}
use high_performance_linux_s.CheckEndian.{big_endian, little_endian, byte_order}

high_byte_first : byte_order (λ n. (n / 256, n % 256)) ≡ big_endian
unfolding byte_order
high_byte_first = refl

low_byte_first : byte_order (λ n. (n % 256, n / 256)) ≡ little_endian
unfolding byte_order
low_byte_first = refl
