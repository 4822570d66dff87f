-- ===== src/Prelude/Lists.antt =====
-- Lists measured by native numbers, and predicates on lists by recursion.
use Prim.Native.Nat.{ℕ, zero, suc, ◌+◌}
use mathlib.Core.Path.{◌≡◌, refl, ap, subst, sym}
use mathlib.Core.Bool.{Bool, true, false}
use mathlib.Core.Logic.{◌⊎◌, inl, inr}
use mathlib.Core.List.{List, [], ◌∷◌, ◌++◌, map}
use native.Mathlib.Omega.{arith}
use pyth_agent.Prelude.Tests.{Bool-cases}

module _ {ℓ} {A : Type ℓ} where
  abbrev pub length : List A → ℕ
  length [] = 0
  length (x ∷ xs) = suc (length xs)

  pub length-append : (xs ys : List A) → length (xs ++ ys) ≡ length xs + length ys
  length-append [] ys = omega arith
  length-append (x ∷ xs) ys = omega (arith, length-append xs ys)

  abbrev pub take : ℕ → List A → List A
  take zero xs = []
  take (suc n) [] = []
  take (suc n) (x ∷ xs) = x ∷ take n xs

  abbrev pub drop : ℕ → List A → List A
  drop zero xs = xs
  drop (suc n) [] = []
  drop (suc n) (x ∷ xs) = drop n xs

  -- `Iterator::filter` and `Vec::retain`: the elements that pass a Boolean test, in their order.
  unfoldable pub retain : (A → Bool) → List A → List A
  retain p [] = []
  retain p (x ∷ xs) = elim (p x) [ true ↦ x ∷ retain p xs | false ↦ retain p xs ]

  -- A property of all elements.
  abbrev pub All {κ} : (A → Type κ) → List A → Type κ
  All P [] = Unit
  All P (x ∷ xs) = P x × All P xs

module _ {ℓ κ μ} {A : Type ℓ} {P : A → Type κ} {Q : A → Type μ} where
  pub All-mono : (xs : List A) → ((a : A) → P a → Q a) → All P xs → All Q xs
  All-mono [] f h = tt
  All-mono (x ∷ xs) f h = (f x h.0, All-mono xs f h.1)

module _ {ℓ κ} {A : Type ℓ} where
  pub All-append : (P : A → Type κ) (xs ys : List A) → All P xs → All P ys → All P (xs ++ ys)
  All-append P [] ys h k = k
  All-append P (x ∷ xs) ys h k = (h.0, All-append P xs ys h.1 k)

-- Membership that computes to a sum.
abbrev pub In : {A : Type 0} → A → List A → Type 0
In a [] = ⊥
In a (x ∷ xs) = (x ≡ a) ⊎ In a xs

module _ {A : Type 0} where
  pub In-append_left : (a : A) (xs ys : List A) → In a xs → In a (xs ++ ys)
  In-append_left a [] ys m = absurd m
  In-append_left a (x ∷ xs) ys (inl e) = inl e
  In-append_left a (x ∷ xs) ys (inr m) = inr (In-append_left a xs ys m)

  pub In-append_right : (a : A) (xs ys : List A) → In a ys → In a (xs ++ ys)
  In-append_right a [] ys m = m
  In-append_right a (x ∷ xs) ys m = inr (In-append_right a xs ys m)

  pub In-append_cases : (a : A) (xs ys : List A) → In a (xs ++ ys) → In a xs ⊎ In a ys
  In-append_cases a [] ys m = inr m
  In-append_cases a (x ∷ xs) ys (inl e) = inl (inl e)
  In-append_cases a (x ∷ xs) ys (inr m) = elim (In-append_cases a xs ys m) [
    | inl h ↦ inl (inr h)
    | inr h ↦ inr h
  ]

  -- An element of a filtered list is one of the list that passes the test.
  pub In-retain : (a : A) (p : A → Bool) (xs : List A) → In a (retain p xs) → In a xs × (p a ≡ true)
  unfolding retain
  In-retain a p [] m = absurd m
  In-retain a p (x ∷ xs) m = elim (Bool-cases (p x)) [
    | inl e ↦ elim (rw (e, retain) at m) [
      | inl h ↦ (inl h, subst (λ y. p y ≡ true) h e)
      | inr h ↦ let r = In-retain a p xs h in (inr r.0, r.1)
    ]
    | inr e ↦ let r = In-retain a p xs (rw (e, retain) at m) in (inr r.0, r.1)
  ]

  pub In-retain_intro :
      (a : A) (p : A → Bool) (xs : List A) → In a xs → p a ≡ true → In a (retain p xs)
  unfolding retain
  In-retain_intro a p [] m h = absurd m
  In-retain_intro a p (x ∷ xs) (inl same) h =
      rw (subst (λ y. p y ≡ true) (sym same) h, retain) (inl same)
  In-retain_intro a p (x ∷ xs) (inr m) h =
      let rest = In-retain_intro a p xs m h in
      elim (Bool-cases (p x)) [ inl e ↦ rw (e, retain) (inr rest) | inr e ↦ rw (e, retain) rest ]

  pub All-In {κ} : (P : A → Type κ) (a : A) (xs : List A) → All P xs → In a xs → P a
  All-In P a [] h m = absurd m
  All-In P a (x ∷ xs) h (inl e) = subst P e h.0
  All-In P a (x ∷ xs) h (inr m) = All-In P a xs h.1 m

module _ {A B : Type 0} (f : A → B) where
  pub In-map : (a : A) (xs : List A) → In a xs → In (f a) (map f xs)
  In-map a [] m = absurd m
  In-map a (x ∷ xs) (inl same) = inl (ap f same)
  In-map a (x ∷ xs) (inr m) = inr (In-map a xs m)

  pub In-map_from : (b : B) (xs : List A) → In b (map f xs) → (a : A) × In a xs × (f a ≡ b)
  In-map_from b [] m = absurd m
  In-map_from b (x ∷ xs) (inl same) = (x, inl refl, same)
  In-map_from b (x ∷ xs) (inr m) = let (a, n, same) = In-map_from b xs m in (a, inr n, same)
