-- ===== src/Net/Buffer/Search/Laws.antt =====
-- What the searches of net/Buffer.h find.
use leaf.Shared.{
  ℕ, zero, suc, ◌+◌, ◌-◌, ◌≤◌, ◌<◌, ◌≡◌, refl, ap, ◌∙◌, inl, inr, false, List, [], ◌∷◌, Option,
  none, some, arith, length, take, drop, get_elem?, le→leb, ◌==◌, Bool-cases, get_elem?-drop,
  length-drop, ◌&&◌,
}
use leaf.Shared.Memory.{read_range}
use leaf.Shared.Outcome.{ok}
use leaf.Net.Buffer.{Buffer, peek_range}
use leaf.Net.Buffer.Content.{IsValid, content, readable_bytes-eq, peek_range-content}
use leaf.Net.Buffer.Search.{cr, lf, search_crlf, find_crlf, memchr_lf, find_eol, find_eol_from}

-- A line end stands at place `k` of the bytes.
abbrev pub CrlfAt : List ℕ → ℕ → Type 0
CrlfAt xs k = (get_elem? xs k ≡ some cr) × (get_elem? xs (suc k) ≡ some lf)

-- The first line end, and none when there is none.
pub record IsFirst (P : ℕ → Type 0) (base : ℕ) (r : Option ℕ) : Type 0 where
  pub found : (i : ℕ) → r ≡ some i → (k : ℕ) × (i ≡ base + k) × P k × ((j : ℕ) → j < k → ¬ P j)
  pub missing : r ≡ none → (k : ℕ) → ¬ P k

IsFirst-here : (P : ℕ → Type 0) (base : ℕ) → P 0 → IsFirst P base (some base)
IsFirst-here P base p = record {
  found = λ i e. let at : base ≡ i = cc in (0, omega arith, p, λ j h _. omega arith);
  missing = λ e k _. cc;
}

earlier :
    (P : ℕ → Type 0) (k : ℕ) → ¬ P 0 → ((j : ℕ) → j < k → ¬ P (suc j)) → (j : ℕ) → j < suc k → ¬ P j
earlier P k z h zero lt = z
earlier P k z h (suc j) lt = h j (omega arith)

never : (P : ℕ → Type 0) → ¬ P 0 → ((k : ℕ) → ¬ P (suc k)) → (k : ℕ) → ¬ P k
never P z h zero = z
never P z h (suc k) = h k

IsFirst-later :
    (P : ℕ → Type 0) (base : ℕ) (r : Option ℕ)
    → ¬ P 0
    → IsFirst (λ k. P (suc k)) (base + 1) r
    → IsFirst P base r
IsFirst-later P base r z f = record {
  found =
      λ i e. let (k, at, p, before) = f.found i e in (suc k, omega arith, p, earlier P k z before);
  missing = λ e. never P z (f.missing e);
}

search_crlf-IsFirst : (xs : List ℕ) (i : ℕ) → IsFirst (CrlfAt xs) i (search_crlf xs i)
unfolding search_crlf
search_crlf-IsFirst [] i = record { found = λ j e. absurd (cc); missing = λ e k p. cc }
search_crlf-IsFirst (x ∷ []) i =
    IsFirst-later (CrlfAt (x ∷ [])) i none (λ p. cc)
      (record { found = λ j e. absurd (cc); missing = λ e k p. cc })
search_crlf-IsFirst (x ∷ (y ∷ ys)) i =
    let P = CrlfAt (x ∷ (y ∷ ys)) in
    elim (Bool-cases (x == cr && y == lf)) [
      | inl hit ↦ rw hit (IsFirst-here P i (ground arith))
      | inr miss ↦
          rw miss (IsFirst-later P i _ (λ p. ground arith) (search_crlf-IsFirst (y ∷ ys) (i + 1)))
    ]

-- '\n' stands at place `k` of the bytes.
abbrev pub LfAt : List ℕ → ℕ → Type 0
LfAt xs k = get_elem? xs k ≡ some lf

memchr_lf-IsFirst :
    (xs : List ℕ) (n i : ℕ)
    → n ≤ length xs
    → (r : Option ℕ) × (memchr_lf xs n i ≡ ok r) × IsFirst (LfAt (take n xs)) i r
unfolding memchr_lf
memchr_lf-IsFirst xs zero i h =
    (none, refl, record { found = λ j e. absurd (cc); missing = λ e k p. cc })
memchr_lf-IsFirst [] (suc n) i h = absurd (omega arith)
memchr_lf-IsFirst (x ∷ xs) (suc n) i h =
    let P = LfAt (x ∷ take n xs) in
    let (r, e, f) = memchr_lf-IsFirst xs n (i + 1) (omega arith) in
    elim (Bool-cases (x == lf)) [
      | inl hit ↦ (some i, rw hit, IsFirst-here P i (ground arith))
      | inr miss ↦ (r, rw miss e, IsFirst-later P i r (λ p. ground arith) f)
    ]

-- A hit is found, however far the search may go.
memchr_lf_reaches :
    (xs : List ℕ) (n i k : ℕ)
    → k < n
    → LfAt xs k
    → ((j : ℕ) → j < k → ¬ LfAt xs j)
    → memchr_lf xs n i ≡ ok (some (i + k))
unfolding memchr_lf
memchr_lf_reaches xs zero i k h at before = absurd (omega arith)
memchr_lf_reaches [] (suc n) i k h at before = absurd (cc)
memchr_lf_reaches (x ∷ xs) (suc n) i zero h at before = ground arith
memchr_lf_reaches (x ∷ xs) (suc n) i (suc k) h at before =
    let skip : (x == lf) ≡ false = ground (arith, before 0) in
    let e : i + 1 + k ≡ i + suc k = omega arith in
    rw skip (
      memchr_lf_reaches xs n (i + 1) k (omega arith) at (λ j lt. before (suc j) (omega arith))
      ∙ ap (λ m. ok (some m)) e)

module _ (b : Buffer) (v : IsValid b) where
  -- `findCRLF` returns the first "\r\n" in the content, and NULL exactly when there is none;
  -- `findEOL` does so for '\n'. Neither reads outside the vector.
  pub find-IsFirst :
      ((r : Option ℕ) × (find_crlf b ≡ ok r) × IsFirst (CrlfAt (content b)) b.reader_index r)
      × ((r : Option ℕ) × (find_eol b ≡ ok r) × IsFirst (LfAt (content b)) b.reader_index r)
  unfolding find_crlf find_eol peek_range
  find-IsFirst = (
    (
      search_crlf (content b) b.reader_index,
      (let e : read_range b.buffer b.reader_index b.writer_index ≡ ok (content b) =
            peek_range-content b v in
          rw e),
      search_crlf-IsFirst (content b) b.reader_index,
    ),
    rw (readable_bytes-eq b v) (
        memchr_lf-IsFirst (drop b.reader_index b.buffer) (b.writer_index - b.reader_index)
          b.reader_index (omega (arith, v.ordered, v.inside, length-drop b.reader_index b.buffer))),
  )

  -- From a later start `findEOL` may leave the content: with no '\n' between the start and the
  -- writer's index, but a stale one at it, it returns that place.
  pub find_eol_from-stale :
      (start : ℕ)
      → b.reader_index < start
      → start ≤ b.writer_index
      → ((k : ℕ) → k < b.writer_index - start → ¬ LfAt (drop start b.buffer) k)
      → LfAt b.buffer b.writer_index
      → find_eol_from b start ≡ ok (some b.writer_index)
  unfolding find_eol_from
  find_eol_from-stale start later inside clean stale =
      let e : start + (b.writer_index - start) ≡ b.writer_index = omega arith in
      rw (le→leb b.reader_index start (omega arith), le→leb _ _ inside, readable_bytes-eq b v)
        (memchr_lf_reaches (drop start b.buffer) (b.writer_index - b.reader_index) start
            (b.writer_index - start) (omega arith)
            (get_elem?-drop start (b.writer_index - start) b.buffer ∙ rw e stale) clean
          ∙ ap (λ m. ok (some m)) e)
