-- ===== src/Shared/Lists.antt =====
-- Lists measured and indexed by native numbers, under the library's names.
use Prim.Native.Nat.{ℕ, zero, suc, ◌+◌, ◌-◌, ◌≤◌, ◌<◌, min}
use mathlib.Core.Path.{◌≡◌, refl, sym, ap, ◌∙◌, ◌≡⟨◌⟩◌, ◌∎}
use mathlib.Core.List.{reverse, reverse-cons, List, [], ◌∷◌, ◌++◌, append_assoc}
use mathlib.Core.Option.{Option, none, some}
use native.Mathlib.Omega.{arith}

module _ {ℓ} {A : Type ℓ} where
  abbrev pub length : List A → ℕ
  length [] = 0
  length (x ∷ xs) = suc (length xs)

  abbrev pub get_elem? : List A → ℕ → Option A
  get_elem? [] i = none
  get_elem? (x ∷ xs) zero = some x
  get_elem? (x ∷ xs) (suc i) = get_elem? xs i

  abbrev pub take : ℕ → List A → List A
  take zero xs = []
  take (suc n) [] = []
  take (suc n) (x ∷ xs) = x ∷ take n xs

  abbrev pub drop : ℕ → List A → List A
  drop zero xs = xs
  drop (suc n) [] = []
  drop (suc n) (x ∷ xs) = drop n xs

  abbrev pub replicate : ℕ → A → List A
  replicate zero a = []
  replicate (suc n) a = a ∷ replicate n a

  pub length-append : (xs ys : List A) → length (xs ++ ys) ≡ length xs + length ys
  length-append [] ys = omega arith
  length-append (x ∷ xs) ys = omega (arith, length-append xs ys)

  pub length-take : (n : ℕ) (xs : List A) → length (take n xs) ≡ min n (length xs)
  length-take zero xs = omega arith
  length-take (suc n) [] = omega arith
  length-take (suc n) (x ∷ xs) = omega (arith, length-take n xs)

  pub length-drop : (n : ℕ) (xs : List A) → length (drop n xs) ≡ length xs - n
  length-drop zero xs = omega arith
  length-drop (suc n) [] = omega arith
  length-drop (suc n) (x ∷ xs) = omega (arith, length-drop n xs)

  pub length-replicate : (n : ℕ) (a : A) → length (replicate n a) ≡ n
  length-replicate zero a = refl
  length-replicate (suc n) a = ap suc (length-replicate n a)

  pub take-append-drop : (n : ℕ) (xs : List A) → take n xs ++ drop n xs ≡ xs
  take-append-drop zero xs = refl
  take-append-drop (suc n) [] = refl
  take-append-drop (suc n) (x ∷ xs) = ap (◌∷◌ x) (take-append-drop n xs)

  -- A prefix and a suffix of a concatenation whose first part has the length that is cut off.
  pub take_append_exact : (n : ℕ) (xs ys : List A) → length xs ≡ n → take n (xs ++ ys) ≡ xs
  take_append_exact zero [] ys h = refl
  take_append_exact zero (x ∷ xs) ys h = absurd (omega arith)
  take_append_exact (suc n) [] ys h = absurd (omega arith)
  take_append_exact (suc n) (x ∷ xs) ys h = ap (◌∷◌ x) (take_append_exact n xs ys (omega arith))

  pub drop_append_exact : (n : ℕ) (xs ys : List A) → length xs ≡ n → drop n (xs ++ ys) ≡ ys
  drop_append_exact zero [] ys h = refl
  drop_append_exact zero (x ∷ xs) ys h = absurd (omega arith)
  drop_append_exact (suc n) [] ys h = absurd (omega arith)
  drop_append_exact (suc n) (x ∷ xs) ys h = drop_append_exact n xs ys (omega arith)

  pub take_append_le : (n : ℕ) (xs ys : List A) → n ≤ length xs → take n (xs ++ ys) ≡ take n xs
  take_append_le zero xs ys h = refl
  take_append_le (suc n) [] ys h = absurd (omega arith)
  take_append_le (suc n) (x ∷ xs) ys h = ap (◌∷◌ x) (take_append_le n xs ys (omega arith))

  pub drop_append_le :
      (n : ℕ) (xs ys : List A) → n ≤ length xs → drop n (xs ++ ys) ≡ drop n xs ++ ys
  drop_append_le zero xs ys h = refl
  drop_append_le (suc n) [] ys h = absurd (omega arith)
  drop_append_le (suc n) (x ∷ xs) ys h = drop_append_le n xs ys (omega arith)

  pub take_all : (n : ℕ) (xs : List A) → length xs ≤ n → take n xs ≡ xs
  take_all zero [] h = refl
  take_all zero (x ∷ xs) h = absurd (omega arith)
  take_all (suc n) [] h = refl
  take_all (suc n) (x ∷ xs) h = ap (◌∷◌ x) (take_all n xs (omega arith))

  pub drop_all : (n : ℕ) (xs : List A) → length xs ≤ n → drop n xs ≡ []
  drop_all zero [] h = refl
  drop_all zero (x ∷ xs) h = absurd (omega arith)
  drop_all (suc n) [] h = refl
  drop_all (suc n) (x ∷ xs) h = drop_all n xs (omega arith)

  pub drop-drop : (m n : ℕ) (xs : List A) → drop m (drop n xs) ≡ drop (n + m) xs
  drop-drop m zero xs = let e : m ≡ zero + m = omega arith in ap (λ k. drop k xs) e
  drop-drop m (suc n) [] = drop_all m [] (omega arith) ∙ sym (drop_all (suc n + m) [] (omega arith))
  drop-drop m (suc n) (x ∷ xs) =
      let e : suc (n + m) ≡ suc n + m = omega arith in
      drop-drop m n xs ∙ ap (λ k. drop k (x ∷ xs)) e

  pub nil_of_length : (xs : List A) → length xs ≡ 0 → xs ≡ []
  nil_of_length [] h = refl
  nil_of_length (x ∷ xs) h = absurd (omega arith)

  pub drop-take : (m n : ℕ) (xs : List A) → drop m (take n xs) ≡ take (n - m) (drop m xs)
  drop-take zero n xs = let e : n ≡ n - 0 = omega arith in ap (λ k. take k xs) e
  drop-take (suc m) zero xs =
      ap (λ k. take k (drop (suc m) xs)) {x = 0} {y = 0 - suc m} (omega arith)
  drop-take (suc m) (suc n) [] = sym (take_all (suc n - suc m) [] (omega arith))
  drop-take (suc m) (suc n) (x ∷ xs) =
      let e : n - m ≡ suc n - suc m = omega arith in
      drop-take m n xs ∙ ap (λ k. take k (drop m xs)) e

  pub take_append_add : (xs ys : List A) (k : ℕ) → take (length xs + k) (xs ++ ys) ≡ xs ++ take k ys
  take_append_add [] ys k = let e : 0 + k ≡ k = omega arith in ap (λ j. take j ys) e
  take_append_add (x ∷ xs) ys k =
      let e : suc (length xs) + k ≡ suc (length xs + k) = omega arith in
      ap (λ j. take j (x ∷ (xs ++ ys))) e ∙ ap (◌∷◌ x) (take_append_add xs ys k)

  -- The elements from `i` to `j`.
  abbrev pub slice : List A → ℕ → ℕ → List A
  slice xs i j = take (j - i) (drop i xs)

  pub length-slice : (xs : List A) (i j : ℕ) → i ≤ j → j ≤ length xs → length (slice xs i j) ≡ j - i
  length-slice xs i j h k = omega (arith, length-take (j - i) (drop i xs), length-drop i xs)

  -- `bs` written at `i`, as `slice` sees it from an earlier place on.
  pub slice-write_end :
      (xs bs : List A) (r i : ℕ)
      → r ≤ i
      → i + length bs ≤ length xs
      → slice (take i xs ++ (bs ++ drop (i + length bs) xs)) r (i + length bs) ≡ slice xs r i ++ bs
  slice-write_end xs bs r i h k =
      let n = i + length bs - r in
      let rest = drop (i + length bs) xs in
      let short : r ≤ length (take i xs) = omega (arith, length-take i xs) in
      let len : length (slice xs r i ++ bs) ≡ n =
        omega (arith, length-append (slice xs r i) bs, length-slice xs r i) in
      take n (drop r (take i xs ++ (bs ++ rest)))
      ≡⟨ ap (take n) (drop_append_le r (take i xs) (bs ++ rest) short) ⟩
        take n (drop r (take i xs) ++ (bs ++ rest))
      ≡⟨ ap (λ z. take n (z ++ (bs ++ rest))) (drop-take r i xs) ⟩
        take n (slice xs r i ++ (bs ++ rest))
      ≡⟨ ap (take n) (sym (append_assoc (slice xs r i) bs rest)) ⟩
        take n ((slice xs r i ++ bs) ++ rest)
      ≡⟨ take_append_exact n (slice xs r i ++ bs) rest len ⟩ slice xs r i ++ bs ∎

  -- `bs` written just before `r`, as `slice` sees it from there on.
  pub slice-write_front :
      (xs bs : List A) (i w : ℕ)
      → i + length bs ≤ w
      → w ≤ length xs
      → slice (take i xs ++ (bs ++ drop (i + length bs) xs)) i w ≡ bs ++ slice xs (i + length bs) w
  slice-write_front xs bs i w h k =
      let rest = drop (i + length bs) xs in
      let len : length (take i xs) ≡ i = omega (arith, length-take i xs) in
      let e : w - i ≡ length bs + (w - (i + length bs)) = omega arith in
      take (w - i) (drop i (take i xs ++ (bs ++ rest)))
      ≡⟨ ap (take (w - i)) (drop_append_exact i (take i xs) (bs ++ rest) len) ⟩
        take (w - i) (bs ++ rest)
      ≡⟨ ap (λ j. take j (bs ++ rest)) e ⟩ take (length bs + (w - (i + length bs))) (bs ++ rest)
      ≡⟨ take_append_add bs rest (w - (i + length bs)) ⟩ bs ++ slice xs (i + length bs) w ∎

  -- A longer vector with the same beginning.
  pub slice-resize :
      (xs ys : List A) (i j : ℕ) → i ≤ j → j ≤ length xs → slice (xs ++ ys) i j ≡ slice xs i j
  slice-resize xs ys i j h k =
      let e : j - i ≤ length (drop i xs) = omega (arith, length-drop i xs) in
      ap (take (j - i)) (drop_append_le i xs ys (omega arith)) ∙ take_append_le (j - i) _ ys e

  pub drop-slice : (n : ℕ) (xs : List A) (i j : ℕ) → drop n (slice xs i j) ≡ slice xs (i + n) j
  drop-slice n xs i j =
      let e : j - i - n ≡ j - (i + n) = omega arith in
      drop n (take (j - i) (drop i xs))
      ≡⟨ drop-take n (j - i) (drop i xs) ⟩ take (j - i - n) (drop n (drop i xs))
      ≡⟨ ap (take (j - i - n)) (drop-drop n i xs) ⟩ take (j - i - n) (drop (i + n) xs)
      ≡⟨ ap (λ k. take k (drop (i + n) xs)) e ⟩ slice xs (i + n) j ∎

  pub take-take : (n m : ℕ) (xs : List A) → n ≤ m → take n (take m xs) ≡ take n xs
  take-take zero m xs h = refl
  take-take (suc n) zero xs h = absurd (omega arith)
  take-take (suc n) (suc m) [] h = refl
  take-take (suc n) (suc m) (x ∷ xs) h = ap (◌∷◌ x) (take-take n m xs (omega arith))

  pub length-write :
      (xs bs : List A) (i : ℕ)
      → i + length bs ≤ length xs
      → length (take i xs ++ (bs ++ drop (i + length bs) xs)) ≡ length xs
  length-write xs bs i h =
      let rest = drop (i + length bs) xs in
      omega (
        arith,
        length-append (take i xs) (bs ++ rest),
        length-append bs rest,
        length-take i xs,
        length-drop (i + length bs) xs,
      )

  pub get_elem?-drop : (i k : ℕ) (xs : List A) → get_elem? (drop i xs) k ≡ get_elem? xs (i + k)
  get_elem?-drop zero k xs = let e : k ≡ 0 + k = omega arith in ap (get_elem? xs) e
  get_elem?-drop (suc i) k [] = refl
  get_elem?-drop (suc i) k (x ∷ xs) =
      let e : suc (i + k) ≡ suc i + k = omega arith in
      get_elem?-drop i k xs ∙ ap (get_elem? (x ∷ xs)) e

  pub get_elem?-take : (n k : ℕ) (xs : List A) → k < n → get_elem? (take n xs) k ≡ get_elem? xs k
  get_elem?-take zero k xs h = absurd (omega arith)
  get_elem?-take (suc n) k [] h = refl
  get_elem?-take (suc n) zero (x ∷ xs) h = refl
  get_elem?-take (suc n) (suc k) (x ∷ xs) h = get_elem?-take n k xs (omega arith)

-- Reversed bytes are as many.
pub length-reverse : (bs : List ℕ) → length (reverse bs) ≡ length bs
length-reverse [] = refl
length-reverse (b ∷ bs) =
    ap length (reverse-cons b bs)
    ∙ length-append (reverse bs) (b ∷ [])
    ∙ omega (arith, length-reverse bs)
