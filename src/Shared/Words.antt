-- ===== src/Shared/Words.antt =====
-- Machine words. `size_t` is 64 bits wide, and its arithmetic wraps.
use leaf.Shared.{ℕ, ◌+◌, ◌-◌, ◌%◌, ◌≤◌, ◌<◌, ◌≡◌, arith}

abbrev pub size_mod : ℕ
size_mod = 18446744073709551616

-- `std::vector<char>::max_size()`, the largest `ptrdiff_t`.
abbrev pub max_size : ℕ
max_size = 9223372036854775807

unfoldable pub add_size : ℕ → ℕ → ℕ
add_size a b = (a + b) % size_mod

unfoldable pub sub_size : ℕ → ℕ → ℕ
sub_size a b = (a + size_mod - b) % size_mod

pub add_size-eq : (a b : ℕ) → a + b < size_mod → add_size a b ≡ a + b
unfolding add_size
add_size-eq a b h = omega arith

pub sub_size-eq : (a b : ℕ) → b ≤ a → a < size_mod → sub_size a b ≡ a - b
unfolding sub_size
sub_size-eq a b h k = omega arith
