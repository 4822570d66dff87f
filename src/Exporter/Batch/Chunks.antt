-- ===== src/Exporter/Batch/Chunks.antt =====
-- The batches of `chunks`.
use pyth_agent.Prelude.{
  ℕ, zero, suc, ◌-◌, ◌≤◌, ◌<◌, ◌≡◌, refl, ap, List, [], ◌∷◌, ◌++◌, ◌≢◌, length, take, drop, arith,
}
use mathlib.Core.List.{flatten}
use pyth_agent.Exporter.Batch.{chunks, chunks_fuel}

module _ {A : Type 0} where
  take-append-drop : (n : ℕ) (xs : List A) → take n xs ++ drop n xs ≡ xs
  take-append-drop zero xs = refl
  take-append-drop (suc n) [] = refl
  take-append-drop (suc n) (x ∷ xs) = ap (λ l. x ∷ l) (take-append-drop n xs)

  length-drop : (n : ℕ) (xs : List A) → length (drop n xs) ≡ length xs - n
  length-drop zero xs = omega arith
  length-drop (suc n) [] = omega arith
  length-drop (suc n) (x ∷ xs) = omega (arith, length-drop n xs)

  length-take-le : (n : ℕ) (xs : List A) → length (take n xs) ≤ n
  length-take-le zero xs = omega arith
  length-take-le (suc n) [] = omega arith
  length-take-le (suc n) (x ∷ xs) = omega (arith, length-take-le n xs)

  length-take : (n : ℕ) (xs : List A) → n ≤ length xs → length (take n xs) ≡ n
  length-take zero xs h = refl
  length-take (suc n) [] h = omega arith
  length-take (suc n) (x ∷ xs) h = ap suc (length-take n xs (omega arith))

  -- Every batch but the last has `size` elements, and the last has between 1 and `size`.
  abbrev pub AreFilled : ℕ → List (List A) → Type 0
  AreFilled size [] = Unit
  AreFilled size (b ∷ []) = (0 < length b) × (length b ≤ size)
  AreFilled size (b ∷ c ∷ bs) = (length b ≡ size) × AreFilled size (c ∷ bs)

  flatten-chunks_fuel :
      (fuel size : ℕ) (xs : List A)
      → 0 < size
      → length xs ≤ fuel
      → flatten (chunks_fuel fuel size xs) ≡ xs
  unfolding chunks_fuel flatten
  flatten-chunks_fuel zero size [] p h = refl
  flatten-chunks_fuel zero size (x ∷ xs) p h = absurd (omega arith)
  flatten-chunks_fuel (suc fuel) size [] p h = refl
  flatten-chunks_fuel (suc fuel) size (x ∷ xs) p h =
      rw
        (flatten-chunks_fuel fuel size (drop size (x ∷ xs)) p
          (omega (arith, length-drop size (x ∷ xs))))
        (take-append-drop size (x ∷ xs))

  AreFilled-cons :
      (size : ℕ) (b : List A) (bs : List (List A))
      → 0 < length b
      → length b ≤ size
      → (bs ≢ [] → length b ≡ size)
      → AreFilled size bs
      → AreFilled size (b ∷ bs)
  AreFilled-cons size b [] some_left fits full rest = (some_left, fits)
  AreFilled-cons size b (c ∷ bs) some_left fits full rest = (full (λ e. cc), rest)

  AreFilled-chunks_fuel :
      (fuel size : ℕ) (xs : List A) → 0 < size → AreFilled size (chunks_fuel fuel size xs)
  unfolding chunks_fuel
  AreFilled-chunks_fuel zero size xs p = tt
  AreFilled-chunks_fuel (suc fuel) size [] p = tt
  AreFilled-chunks_fuel (suc fuel) (suc n) (x ∷ xs) p =
      AreFilled-cons (suc n) (x ∷ take n xs) (chunks_fuel fuel (suc n) (drop n xs)) (omega arith)
        (omega (arith, length-take-le n xs)) (full fuel (drop n xs) (length-drop n xs))
        (AreFilled-chunks_fuel fuel (suc n) (drop n xs) p)
    where
      full :
          (f : ℕ) (rest : List A)
          → length rest ≡ length xs - n
          → chunks_fuel f (suc n) rest ≢ []
          → length (x ∷ take n xs) ≡ suc n
      full zero rest e h = absurd (h refl)
      full (suc f) [] e h = absurd (h refl)
      full (suc f) (r ∷ rest) e h = ap suc (length-take n xs (omega arith))
  AreFilled-chunks_fuel (suc fuel) zero (x ∷ xs) p = absurd (omega arith)

  -- For a size above 0 the batches are the list cut into pieces: joined they are the list, in its
  -- order; all but the last have that size, and the last is not empty and no larger.
  pub chunks_partition :
      (size : ℕ) (xs : List A)
      → 0 < size
      → (flatten (chunks size xs) ≡ xs) × AreFilled size (chunks size xs)
  unfolding chunks
  chunks_partition size xs p = (
    flatten-chunks_fuel (length xs) size xs p (omega arith),
    AreFilled-chunks_fuel (length xs) size xs p,
  )
