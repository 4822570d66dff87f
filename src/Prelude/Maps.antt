-- ===== src/Prelude/Maps.antt =====
-- `HashMap`, `BTreeMap` and `HashSet` as association lists. The order of a list stands for the
-- order in which the program iterates, so a theorem about every list holds for every such order.
use mathlib.Core.Path.{◌≡◌, refl}
use mathlib.Core.Bool.{Bool, true, false, false≢true}
use mathlib.Core.Logic.{◌↔◌, ◌⊎◌, inl, inr, ite, if_pos, if_neg}
use mathlib.Core.List.{List, [], ◌∷◌}
use mathlib.Core.Option.{Option, none, some}
use native.Mathlib.Omega.{arith}
use native.Mathlib.Decide.{ℕ_discrete}
use Prim.Native.Nat.{ℕ}
use Prim.Native.String.{String}
use text.Mathlib.Text.{◌==◌}
use text.Mathlib.TextEquality.{eq_iff}
use pyth_agent.Prelude.Tests.{if◌then◌else◌}
use pyth_agent.Prelude.Lists.{In}

-- Keys with a decidable equality.
pub record Key {ℓ} (K : Type ℓ) : Type ℓ where
  pub dec : Discrete K

module _ {ℓ} {K V : Type ℓ} ⦃key : Key K⦄ where
  unfoldable pub lookup : K → List (K × V) → Option V
  lookup k [] = none
  lookup k ((j, v) ∷ m) = ite (key.dec j k) (some v) (lookup k m)

  unfoldable pub insert : K → V → List (K × V) → List (K × V)
  insert k v [] = (k, v) ∷ []
  insert k v ((j, w) ∷ m) = ite (key.dec j k) ((k, v) ∷ m) ((j, w) ∷ insert k v m)

  unfoldable pub remove : K → List (K × V) → List (K × V)
  remove k [] = []
  remove k ((j, w) ∷ m) = ite (key.dec j k) (remove k m) ((j, w) ∷ remove k m)

  pub lookup-insert :
      (j k : K) (v : V) (m : List (K × V))
      → lookup j (insert k v m) ≡ ite (key.dec k j) (some v) (lookup j m)
  unfolding lookup insert
  lookup-insert j k v [] = refl
  lookup-insert j k v ((i, w) ∷ m) = ground (arith, lookup-insert j k v m)

  pub lookup-remove :
      (j k : K) (m : List (K × V)) → lookup j (remove k m) ≡ ite (key.dec k j) none (lookup j m)
  unfolding lookup remove
  lookup-remove j k [] = ground arith
  lookup-remove j k ((i, w) ∷ m) = ground (arith, lookup-remove j k m)

  abbrev pub keys : List (K × V) → List K
  keys [] = []
  keys ((j, w) ∷ m) = j ∷ keys m

  -- `Extend`: each entry of the second map is inserted.
  unfoldable pub extend : List (K × V) → List (K × V) → List (K × V)
  extend m [] = m
  extend m ((k, v) ∷ n) = extend (insert k v m) n

  -- The representation invariant of a map: no key stands twice.
  abbrev pub HasUniqueKeys : List (K × V) → Type ℓ
  HasUniqueKeys [] = Unit
  HasUniqueKeys ((k, v) ∷ m) = (lookup k m ≡ none) × HasUniqueKeys m

  pub insert-HasUniqueKeys :
      (k : K) (v : V) (m : List (K × V)) → HasUniqueKeys m → HasUniqueKeys (insert k v m)
  unfolding insert lookup
  insert-HasUniqueKeys k v [] h = ground arith
  insert-HasUniqueKeys k v ((j, w) ∷ m) h =
      ground (arith, insert-HasUniqueKeys k v m h.1, lookup-insert j k v m)

  pub extend-HasUniqueKeys : (m n : List (K × V)) → HasUniqueKeys m → HasUniqueKeys (extend m n)
  unfolding extend
  extend-HasUniqueKeys m [] h = h
  extend-HasUniqueKeys m ((k, v) ∷ n) h =
      extend-HasUniqueKeys (insert k v m) n (insert-HasUniqueKeys k v m h)

  -- What the extended map holds: the second map's entry, or else the first map's.
  pub lookup-extend :
      (j : K) (m n : List (K × V))
      → HasUniqueKeys n
      → lookup j (extend m n) ≡ elim (lookup j n) [ some v ↦ some v | none ↦ lookup j m ]
  unfolding extend lookup
  lookup-extend j m [] h = refl
  lookup-extend j m ((k, v) ∷ n) h =
      ground (arith, lookup-extend j (insert k v m) n h.1, lookup-insert j k v m)

-- Every key of the first map is one of the second.
abbrev pub Covers {ℓ} : {K V W : Type ℓ} ⦃key : Key K⦄ → List (K × V) → List (K × W) → Type ℓ
Covers {K} {V} {W} m n = (k : K) (v : V) → lookup k m ≡ some v → (w : W) × (lookup k n ≡ some w)

module _ {ℓ} {K V W : Type ℓ} ⦃key : Key K⦄ where
  pub Covers-insert_right :
      (j : K) (x : W) (m : List (K × V)) (n : List (K × W)) → Covers m n → Covers m (insert j x n)
  Covers-insert_right j x m n c k v e =
      let (w, f) = c k v e in
      elim (key.dec j k) [
        | yes same ↦ (x, ground (arith, lookup-insert k j x n))
        | no other ↦ (w, ground (arith, lookup-insert k j x n))
      ]

  pub Covers-insert :
      (j : K) (x : V) (y : W) (m : List (K × V)) (n : List (K × W))
      → Covers m n
      → Covers (insert j x m) (insert j y n)
  Covers-insert j x y m n c k v e = elim (key.dec j k) [
    | yes same ↦ (y, ground (arith, lookup-insert k j y n))
    | no other ↦
        let (w, f) = c k v (ground (arith, e, lookup-insert k j x m)) in
        (w, ground (arith, lookup-insert k j y n))
  ]

-- `HashSet` as a list without repetitions.
module _ {ℓ} {K : Type ℓ} ⦃key : Key K⦄ where
  unfoldable pub contains : K → List K → Bool
  contains k [] = false
  contains k (j ∷ s) = ite (key.dec j k) true (contains k s)

  -- No element stands twice.
  abbrev pub AreDistinct : List K → Type 0
  AreDistinct [] = Unit
  AreDistinct (k ∷ ks) = (contains k ks ≡ false) × AreDistinct ks

  unfoldable pub set_insert : K → List K → List K
  set_insert k s = if contains k s then s else k ∷ s

  unfoldable pub set_remove : K → List K → List K
  set_remove k [] = []
  set_remove k (j ∷ s) = ite (key.dec j k) (set_remove k s) (j ∷ set_remove k s)

  pub contains-set_insert :
      (j k : K) (s : List K) → contains j (set_insert k s) ≡ ite (key.dec k j) true (contains j s)
  unfolding contains set_insert
  contains-set_insert j k s = ground arith

module _ {K V : Type 0} ⦃key : Key K⦄ where
  pub In-lookup : (k : K) (v : V) (m : List (K × V)) → lookup k m ≡ some v → In (k, v) m
  unfolding lookup
  In-lookup k v [] h = cc
  In-lookup k v ((j, w) ∷ m) h = ground (arith, In-lookup k v m)

  pub lookup-In :
      (k : K) (v : V) (m : List (K × V)) → HasUniqueKeys m → In (k, v) m → lookup k m ≡ some v
  unfolding lookup
  lookup-In k v [] u h = absurd h
  lookup-In k v ((j, w) ∷ m) u (inl e) = ground arith
  lookup-In k v ((j, w) ∷ m) u (inr h) = ground (arith, lookup-In k v m u.1 h)

module _ {K V : Type 0} ⦃key : Key K⦄ where
  pub In-insert :
      (e : K × V) (k : K) (v : V) (m : List (K × V)) → In e (insert k v m) → ((k, v) ≡ e) ⊎ In e m
  unfolding insert
  In-insert e k v [] h = h
  In-insert e k v ((j, w) ∷ m) h = elim (key.dec j k) [
    | yes same ↦ elim (rw (if_pos _ same) at h) [ inl p ↦ inl p | inr q ↦ inr (inr q) ]
    | no other ↦ elim (rw (if_neg _ other) at h) [
      | inl p ↦ inr (inl p)
      | inr q ↦ elim (In-insert e k v m q) [ inl p ↦ inl p | inr r ↦ inr (inr r) ]
    ]
  ]

  pub In-extend : (e : K × V) (m n : List (K × V)) → In e (extend m n) → In e m ⊎ In e n
  unfolding extend
  In-extend e m [] h = inl h
  In-extend e m ((k, v) ∷ n) h = elim (In-extend e (insert k v m) n h) [
    | inl p ↦ elim (In-insert e k v m p) [ inl q ↦ inr (inl q) | inr q ↦ inl q ]
    | inr q ↦ inr (inr q)
  ]

instance abbrev pub nat_key : Key ℕ
nat_key = record { dec = ℕ_discrete }

unfoldable pub dec_string : Discrete String
dec_string s t = by_test (s == t) (eq_iff s t)
  where
    by_test : (b : Bool) → ((b ≡ true) ↔ (s ≡ t)) → Dec (s ≡ t)
    by_test true e = yes (e.0 refl)
    by_test false e = no (λ h. false≢true (e.1 h))

instance abbrev pub string_key : Key String
string_key = record { dec = dec_string }
