-- ===== src/Base/LogFile/Writes.antt =====
-- What `File::append` of base/LogFile.cc writes.
use leaf.Shared.{
  ℕ, zero, suc, ◌+◌, ◌≤◌, ◌<◌, ◌≡◌, refl, sym, ap, ◌∙◌, inl, inr, List, ◌++◌, length, take, drop,
  arith, lt→ltb, le→ltb, lt_or_le, ne_of_gt, append-nil, append_assoc, take-append-drop,
  length-drop, nil_of_length,
}
use leaf.Base.LogFile.{File, write_loop, file_append}

-- fwrite takes something of what it is given, since no error stands at the file, and no more than that.
abbrev pub TakesSome : (ℕ → List ℕ → ℕ) → Type 0
TakesSome write =
    (i : ℕ) (bs : List ℕ) → 0 < length bs → (0 < write i bs) × (write i bs ≤ length bs)

module _ (write : ℕ → List ℕ → ℕ) (some_taken : TakesSome write) where
  write_loop_all :
      (fuel i : ℕ) (rest contents : List ℕ)
      → length rest ≤ fuel
      → write_loop fuel write i rest contents ≡ contents ++ rest
  unfolding write_loop
  write_loop_all zero i rest contents h =
      sym (ap (◌++◌ contents) (nil_of_length rest (omega (arith, h))) ∙ append-nil contents)
  write_loop_all (suc fuel) i rest contents h = elim (lt_or_le 0 (length rest)) [
    | inl some_left ↦
        let x = write i rest in
        let taken : 0 < x = (some_taken i rest some_left).0 in
        let fewer : length (drop x rest) ≤ fuel = omega (arith, length-drop x rest, taken, h) in
        let all : (contents ++ take x rest) ++ drop x rest ≡ contents ++ rest =
          append_assoc contents (take x rest) (drop x rest)
          ∙ ap (◌++◌ contents) (take-append-drop x rest) in
        rw (lt→ltb _ _ some_left, ne_of_gt x taken)
          (write_loop_all fuel (suc i) (drop x rest) (contents ++ take x rest) fewer ∙ all)
    | inr none_left ↦ rw (le→ltb _ _ none_left) (
        sym (
          ap (◌++◌ contents) (nil_of_length rest (omega (arith, none_left))) ∙ append-nil contents))
  ]

  -- However fwrite cuts the bytes up, while it takes some each time the loop ends with all of them in
  -- the file, in order, and counts them.
  pub file_append_complete :
      (f : File) (logline : List ℕ)
      → ((file_append write f logline).contents ≡ f.contents ++ logline)
        × ((file_append write f logline).written_bytes ≡ f.written_bytes + length logline)
        × ((file_append write f logline).opened ≡ f.opened)
  unfolding file_append
  file_append_complete f logline =
      let n = write 0 logline in
      let fuel : length (drop n logline) ≤ length logline = omega (arith, length-drop n logline) in
      (
        write_loop_all (length logline) 1 (drop n logline) (f.contents ++ take n logline) fuel
            ∙ append_assoc f.contents (take n logline) (drop n logline)
            ∙ ap (◌++◌ f.contents) (take-append-drop n logline),
        refl,
        refl,
      )
