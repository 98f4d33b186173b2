-- ===== src/Base/LogStream/Fresh.antt =====
-- Buffers of base/LogStream.h that hold nothing.
use leaf.Shared.{ℕ, ◌≤◌, ◌≡◌, refl, ap, [], length, take, arith, length-replicate}
use leaf.Base.LogStream.{FixedBuffer, fixed_buffer, avail, as_string, reset, bzero}
use leaf.Base.LogStream.Stream.{IsValid}

-- An empty buffer of this size.
pub record IsFresh (size : ℕ) (f : FixedBuffer) : Type 0 where
  pub sized : length f.bytes ≡ size
  pub cleared : f.cur ≡ 0

pub avail-le-length : (f : FixedBuffer) → avail f ≤ length f.bytes
unfolding avail
avail-le-length f = omega arith

module _ {size : ℕ} {f : FixedBuffer} (h : IsFresh size f) where
  pub IsFresh-valid : IsValid f
  IsFresh-valid = omega (arith, h.cleared)

  pub avail-IsFresh : avail f ≡ size
  unfolding avail
  avail-IsFresh = omega (arith, h.sized, h.cleared)

  pub as_string-IsFresh : as_string f ≡ []
  unfolding as_string
  as_string-IsFresh = ap (λ n. take n f.bytes) h.cleared

  pub bzero-IsFresh : IsFresh size (bzero f)
  unfolding bzero
  bzero-IsFresh = record {
    sized = omega (arith, h.sized, length-replicate {A = ℕ} (length f.bytes) 0);
    cleared = h.cleared;
  }

pub reset-IsFresh : {size : ℕ} (f : FixedBuffer) → length f.bytes ≡ size → IsFresh size (reset f)
unfolding reset
reset-IsFresh f h = record { sized = h; cleared = refl }

pub fixed_buffer-IsFresh : (size : ℕ) → IsFresh size (fixed_buffer size)
unfolding fixed_buffer
fixed_buffer-IsFresh size = record { sized = length-replicate size 0; cleared = refl }
