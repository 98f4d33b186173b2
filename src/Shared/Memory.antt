-- ===== src/Shared/Memory.antt =====
-- Copies between arrays of bytes, with their bounds.
use leaf.Shared.{
  ℕ, ◌+◌, ◌-◌, ◌≤◌, ◌≡◌, List, ◌++◌, ◌&&◌, leb, if◌then◌else◌, length, take, drop, le→leb,
}
use leaf.Shared.Outcome.{Outcome, ok, out_of_bounds}

-- The bytes [i, j) of an array, as a copy reads them.
unfoldable pub read_range : List ℕ → ℕ → ℕ → Outcome (List ℕ)
read_range v i j =
    if leb i j && leb j (length v) then ok (take (j - i) (drop i v)) else out_of_bounds

-- `bs` copied to index `i` of an array.
unfoldable pub write_at : List ℕ → ℕ → List ℕ → Outcome (List ℕ)
write_at v i bs =
    if leb (i + length bs) (length v)
    then ok (take i v ++ (bs ++ drop (i + length bs) v))
    else out_of_bounds

pub write_at_lem :
    (v : List ℕ) (i : ℕ) (bs : List ℕ)
    → i + length bs ≤ length v
    → write_at v i bs ≡ ok (take i v ++ (bs ++ drop (i + length bs) v))
unfolding write_at
write_at_lem v i bs h = rw (le→leb _ _ h)
