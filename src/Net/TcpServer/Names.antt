-- ===== src/Net/TcpServer/Names.antt =====
-- The names of connections and the map of net/TcpServer.cc.
use leaf.Shared.{
  ℕ, ◌+◌, ◌≤◌, ◌<◌, ◌≡◌, ◌≢◌, refl, sym, ap, ◌∙◌, inl, inr, true, false, Bool-cases, List, [], ◌∷◌,
  ◌++◌, ◌==◌, if◌then◌else◌, length, take, take_all, length-append, arith,
}
use leaf.Shared.Int.{pos}
use leaf.Base.LogStream.Convert.{read_int}
use leaf.Base.LogStream.Decimal.{decimal, read_int-decimal, length-decimal}
use leaf.Net.TcpServer.{conn_name, same_name, erased, erase, assign_name}

same_name_refl : (xs : List ℕ) → same_name xs xs ≡ true
unfolding same_name
same_name_refl [] = refl
same_name_refl (x ∷ xs) = let e : (x == x) ≡ true = ground arith in rw e (same_name_refl xs)

same_name_eq : (xs ys : List ℕ) → same_name xs ys ≡ true → xs ≡ ys
unfolding same_name
same_name_eq [] [] h = refl
same_name_eq [] (y ∷ ys) h = absurd (cc)
same_name_eq (x ∷ xs) [] h = absurd (cc)
same_name_eq (x ∷ xs) (y ∷ ys) h = elim (Bool-cases (x == y)) [
  | inl e ↦ let q : x ≡ y = ground arith in let rest = same_name_eq xs ys (rw e at h) in cc
  | inr e ↦ absurd (let f : false ≡ true = rw e at h in cc)
]

pub same_name_ne : (xs ys : List ℕ) → xs ≢ ys → same_name xs ys ≡ false
same_name_ne xs ys h = elim (Bool-cases (same_name xs ys)) [
  | inl e ↦ absurd (h (same_name_eq xs ys e))
  | inr e ↦ e
]

-- What the map says of a name after `assign_name` and `erase`.
pub erased-erase : (name : List ℕ) (m : List (List ℕ × ℕ)) → erased name (erase name m) ≡ 0
unfolding erased erase
erased-erase name [] = refl
erased-erase name ((key, id) ∷ m) = elim (Bool-cases (same_name key name)) [
  | inl e ↦ rw e (erased-erase name m)
  | inr e ↦ rw (e, erased, e) (omega (arith, erased-erase name m))
]

pub erased-erase_other :
    (name other : List ℕ) (m : List (List ℕ × ℕ))
    → name ≢ other
    → erased other (erase name m) ≡ erased other m
unfolding erased erase
erased-erase_other name other [] h = refl
erased-erase_other name other ((key, id) ∷ m) h = elim (Bool-cases (same_name key name)) [
  | inl e ↦
      let k : key ≡ name = same_name_eq key name e in
      let no_ : same_name key other ≡ false = same_name_ne key other (λ q. h (sym k ∙ q)) in
      rw (e, no_) (omega (arith, erased-erase_other name other m h))
  | inr e ↦
      rw (e, erased)
        (ap (λ n. (if same_name key other then 1 else 0) + n) (erased-erase_other name other m h))
]

pub erased-assign :
    (name : List ℕ) (id : ℕ) (m : List (List ℕ × ℕ)) → erased name (assign_name name id m) ≡ 1
unfolding erased assign_name
erased-assign name id m = rw (same_name_refl name) (omega (arith, erased-erase name m))

pub erased-assign_other :
    (name other : List ℕ) (id : ℕ) (m : List (List ℕ × ℕ))
    → name ≢ other
    → erased other (assign_name name id m) ≡ erased other m
unfolding erased assign_name
erased-assign_other name other id m h =
    rw (same_name_ne name other h) (omega (arith, erased-erase_other name other m h))

append_left_cancel : (xs ys zs : List ℕ) → xs ++ ys ≡ xs ++ zs → ys ≡ zs
append_left_cancel [] ys zs h = h
append_left_cancel (x ∷ xs) ys zs h =
    append_left_cancel xs ys zs (let t : xs ++ ys ≡ xs ++ zs = cc in t)

-- Below 10 ^ 8 no digit is cut off, with any IPv4 address and port.
whole_name :
    (hostport : List ℕ) (i : ℕ)
    → length hostport ≤ 21
    → i < 100000000
    → take 31 (58 ∷ (hostport ++ 35 ∷ decimal i)) ≡ 58 ∷ (hostport ++ 35 ∷ decimal i)
whole_name hostport i h k =
    take_all 31 (58 ∷ (hostport ++ 35 ∷ decimal i))
      (omega (arith, length-append hostport (35 ∷ decimal i), length-decimal i k, h))

-- As long as fewer than 10 ^ 8 connections were made, no two have the same name.
pub conn_name-injective :
    (name hostport : List ℕ) (i j : ℕ)
    → length hostport ≤ 21
    → i < 100000000
    → j < 100000000
    → conn_name name hostport i ≡ conn_name name hostport j
    → i ≡ j
unfolding conn_name
conn_name-injective name hostport i j h hi hj e =
    let cut =
      append_left_cancel name (take 31 (58 ∷ (hostport ++ 35 ∷ decimal i)))
        (take 31 (58 ∷ (hostport ++ 35 ∷ decimal j))) e in
    let whole = sym (whole_name hostport i h hi) ∙ cut ∙ whole_name hostport j h hj in
    let ends : 35 ∷ decimal i ≡ 35 ∷ decimal j =
      append_left_cancel (58 ∷ hostport) (35 ∷ decimal i) (35 ∷ decimal j) whole in
    let digits : decimal i ≡ decimal j = cc in
    let ints : pos i ≡ pos j =
      sym (read_int-decimal i (omega (arith, hi)))
      ∙ ap read_int digits
      ∙ read_int-decimal j (omega (arith, hj)) in
    cc
