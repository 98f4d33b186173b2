-- ===== src/Net/Endian/Laws.antt =====
-- Words, their bytes in memory, and the conversions of net/Endian.h.
use mathlib.Core.List.{reverse, reverse-reverse, reverse-cons}
use leaf.Shared.{
  length-reverse, ℕ, zero, suc, ◌+◌, ◌*◌, ◌/◌, ◌%◌, ◌^◌, ◌<◌, ◌≡◌, refl, sym, ap, ap₂, ◌∙◌, List,
  [], ◌∷◌, ◌++◌, arith, length,
}
use leaf.Net.Endian.{
  to_bytes, from_bytes, swap_bytes, host_to_network64, host_to_network32, host_to_network16,
  network_to_host64, network_to_host32, network_to_host16,
}

abbrev pub AreBytes : List ℕ → Type 0
AreBytes [] = Unit {0}
AreBytes (x ∷ xs) = (x < 256) × AreBytes xs

pub length-to_bytes : (n x : ℕ) → length (to_bytes n x) ≡ n
unfolding to_bytes
length-to_bytes zero x = refl
length-to_bytes (suc n) x = ap suc (length-to_bytes n (x / 256))

pub to_bytes-AreBytes : (n x : ℕ) → AreBytes (to_bytes n x)
unfolding to_bytes
to_bytes-AreBytes zero x = tt
to_bytes-AreBytes (suc n) x = (omega arith, to_bytes-AreBytes n (x / 256))

pub to_bytes-from_bytes : (xs : List ℕ) → AreBytes xs → to_bytes (length xs) (from_bytes xs) ≡ xs
unfolding to_bytes from_bytes
to_bytes-from_bytes [] h = refl
to_bytes-from_bytes (x ∷ xs) h =
    let low : (x + 256 * from_bytes xs) % 256 ≡ x = omega arith in
    let high : (x + 256 * from_bytes xs) / 256 ≡ from_bytes xs = omega arith in
    ap₂ ◌∷◌ low (ap (to_bytes (length xs)) high ∙ to_bytes-from_bytes xs h.1)

-- The values that `n` bytes can hold.
abbrev pub limit : ℕ → ℕ
limit zero = 1
limit (suc n) = 256 * limit n

pub from_bytes-to_bytes : (n x : ℕ) → x < limit n → from_bytes (to_bytes n x) ≡ x
unfolding to_bytes from_bytes
from_bytes-to_bytes zero x h = omega arith
from_bytes-to_bytes (suc n) x h =
    let high : x / 256 < limit n = omega arith in
    omega (arith, from_bytes-to_bytes n (x / 256) high)

AreBytes-append : (xs ys : List ℕ) → AreBytes xs → AreBytes ys → AreBytes (xs ++ ys)
AreBytes-append [] ys h k = k
AreBytes-append (x ∷ xs) ys h k = (h.0, AreBytes-append xs ys h.1 k)

AreBytes-reverse : (xs : List ℕ) → AreBytes xs → AreBytes (reverse xs)
AreBytes-reverse [] h = tt
AreBytes-reverse (x ∷ xs) h =
    rw (reverse-cons x xs)
      (AreBytes-append (reverse xs) (x ∷ []) (AreBytes-reverse xs h.1) (h.0, tt))

-- The bytes of a word in network order, highest first.
abbrev pub network_bytes : ℕ → ℕ → List ℕ
network_bytes n x = reverse (to_bytes n x)

pub length-network_bytes : (n x : ℕ) → length (network_bytes n x) ≡ n
length-network_bytes n x = length-reverse (to_bytes n x) ∙ length-to_bytes n x

-- A swapped word lies in memory in network order.
pub to_bytes-swap_bytes : (n x : ℕ) → to_bytes n (swap_bytes n x) ≡ network_bytes n x
unfolding swap_bytes
to_bytes-swap_bytes n x =
    let bs = network_bytes n x in
    ap (λ k. to_bytes k (from_bytes bs)) (sym (length-network_bytes n x))
    ∙ to_bytes-from_bytes bs (AreBytes-reverse (to_bytes n x) (to_bytes-AreBytes n x))

pub swap_bytes-swap_bytes : (n x : ℕ) → x < limit n → swap_bytes n (swap_bytes n x) ≡ x
unfolding swap_bytes
swap_bytes-swap_bytes n x h =
    ap (λ bs. from_bytes (reverse bs)) (to_bytes-swap_bytes n x)
    ∙ ap from_bytes (reverse-reverse (to_bytes n x))
    ∙ from_bytes-to_bytes n x h

-- Each conversion from the network undoes the one to it, and the converted word lies in memory
-- highest byte first.
pub network_order :
    (x y z : ℕ)
    → x < 256 ^ 8
    → y < 256 ^ 4
    → z < 256 ^ 2
    → (network_to_host64 (host_to_network64 x) ≡ x)
      × (to_bytes 8 (host_to_network64 x) ≡ network_bytes 8 x)
      × (network_to_host32 (host_to_network32 y) ≡ y)
      × (to_bytes 4 (host_to_network32 y) ≡ network_bytes 4 y)
      × (network_to_host16 (host_to_network16 z) ≡ z)
      × (to_bytes 2 (host_to_network16 z) ≡ network_bytes 2 z)
unfolding host_to_network64 host_to_network32 host_to_network16 network_to_host64 network_to_host32
    network_to_host16
network_order x y z hx hy hz = (
  swap_bytes-swap_bytes 8 x hx,
  to_bytes-swap_bytes 8 x,
  swap_bytes-swap_bytes 4 y hy,
  to_bytes-swap_bytes 4 y,
  swap_bytes-swap_bytes 2 z hz,
  to_bytes-swap_bytes 2 z,
)
