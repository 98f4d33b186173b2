-- ===== src/Net/Tests.antt =====
-- The theorems on net/Endian.h at concrete values.
use leaf.Shared.{◌≡◌, arith}
use leaf.Net.Endian.{
  to_bytes, host_to_network64, host_to_network32, host_to_network16, network_to_host64,
  network_to_host32, network_to_host16,
}
use leaf.Net.Endian.Laws.{network_bytes, network_order}

network_order_example :
    (network_to_host64 (host_to_network64 1) ≡ 1)
    × (to_bytes 8 (host_to_network64 1) ≡ network_bytes 8 1)
    × (network_to_host32 (host_to_network32 258) ≡ 258)
    × (to_bytes 4 (host_to_network32 258) ≡ network_bytes 4 258)
    × (network_to_host16 (host_to_network16 80) ≡ 80)
    × (to_bytes 2 (host_to_network16 80) ≡ network_bytes 2 80)
network_order_example = network_order 1 258 80 (omega arith) (omega arith) (omega arith)
