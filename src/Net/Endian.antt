-- ===== src/Net/Endian.antt =====
-- net/Endian.h, on a little-endian host: `htobe16` and its relatives reverse the bytes of a word.
-- A word of `n` bytes is a number below 256 ^ n, whatever its signedness.
pub mod Laws
use leaf.Shared.{ℕ, zero, suc, ◌+◌, ◌*◌, ◌/◌, ◌%◌, List, [], ◌∷◌}
use mathlib.Core.List.{reverse}

-- The object representation of a word of `n` bytes in memory, lowest byte first.
unfoldable pub to_bytes : ℕ → ℕ → List ℕ
to_bytes zero x = []
to_bytes (suc n) x = (x % 256) ∷ to_bytes n (x / 256)

unfoldable pub from_bytes : List ℕ → ℕ
from_bytes [] = 0
from_bytes (x ∷ xs) = x + 256 * from_bytes xs

-- The bytes of a word, reversed.
unfoldable pub swap_bytes : ℕ → ℕ → ℕ
swap_bytes n x = from_bytes (reverse (to_bytes n x))

unfoldable pub host_to_network64 : ℕ → ℕ
host_to_network64 host64 = swap_bytes 8 host64

unfoldable pub host_to_network32 : ℕ → ℕ
host_to_network32 host32 = swap_bytes 4 host32

unfoldable pub host_to_network16 : ℕ → ℕ
host_to_network16 host16 = swap_bytes 2 host16

unfoldable pub network_to_host64 : ℕ → ℕ
network_to_host64 net64 = swap_bytes 8 net64

unfoldable pub network_to_host32 : ℕ → ℕ
network_to_host32 net32 = swap_bytes 4 net32

unfoldable pub network_to_host16 : ℕ → ℕ
network_to_host16 net16 = swap_bytes 2 net16
