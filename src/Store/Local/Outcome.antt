-- ===== src/Store/Local/Outcome.antt =====
-- What one message, and a history, make of the local store's price of a key.
use pyth_agent.Prelude.{
  ◌≡◌, refl, ◌⊎◌, inl, inr, List, [], ◌∷◌, ◌++◌, Option, none, some, All, arith, ap, subst, sym,
}
use pyth_agent.Prelude.Int.{ℤ, ◌≤ℤ◌, ◌<ℤ◌}
use pyth_agent.Prelude.Maps.{nat_key}
use pyth_agent.Solana.{Identifier}
use pyth_agent.Store.Price.{PriceInfo}
use pyth_agent.Store.Local.{Message, update_price, lookup_all_price_info}

-- A message that updates `k` does so with a timestamp below `t`, or not above it.
abbrev pub IsOlder : Identifier → ℤ → Message → Type 0
IsOlder k t (update_price j info) = j ≡ k → info.timestamp <ℤ t
IsOlder k t (lookup_all_price_info _) = Unit

abbrev pub IsNotNewer : Identifier → ℤ → Message → Type 0
IsNotNewer k t (update_price j info) = j ≡ k → info.timestamp ≤ℤ t
IsNotNewer k t (lookup_all_price_info _) = Unit

abbrev pub IsElsewhere : Identifier → Message → Type 0
IsElsewhere k (update_price j info) = ¬ (j ≡ k)
IsElsewhere k (lookup_all_price_info _) = Unit

-- The history updates `k` with `v`, never before with a newer price, and later only with older ones.
pub record IsNewest (k : Identifier) (v : PriceInfo) (ms : List Message) : Type 0 where
  pub before : List Message
  pub after : List Message
  pub split : ms ≡ before ++ update_price k v ∷ after
  pub none_newer : All (IsNotNewer k v.timestamp) before
  pub rest_older : All (IsOlder k v.timestamp) after

abbrev pub Bounds : Option PriceInfo → PriceInfo → Type 0
Bounds none v = Unit
Bounds (some u) v = u.timestamp ≤ℤ v.timestamp

-- What a history makes of the price of `k`: it leaves it unset, or as it was, or at its own newest.
abbrev pub Outcome : Identifier → List Message → Option PriceInfo → Option PriceInfo → Type 0
Outcome k ms old none = (old ≡ none) × All (IsElsewhere k) ms
Outcome k ms old (some v) =
    ((old ≡ some v) × All (IsOlder k v.timestamp) ms) ⊎ (IsNewest k v ms × Bounds old v)

abbrev pub Skips : Identifier → Message → Option PriceInfo → Type 0
Skips k m none = IsElsewhere k m
Skips k m (some u) = IsOlder k u.timestamp m

-- What one message makes of it.
pub data StepOutcome (k : Identifier) (m : Message) (old mid : Option PriceInfo) : Type 0 where
  kept : old ≡ mid → Skips k m old → StepOutcome k m old mid
  changed :
      (v : PriceInfo) → m ≡ update_price k v → mid ≡ some v → Bounds old v → StepOutcome k m old mid

pub some_inj : (u v : PriceInfo) → some u ≡ some v → u ≡ v
some_inj u v e = cc

Skips-IsNotNewer :
    (k : Identifier) (m : Message) (old : Option PriceInfo) (v : PriceInfo)
    → Skips k m old
    → Bounds old v
    → IsNotNewer k v.timestamp m
Skips-IsNotNewer k (update_price j info) none v skips bound = λ same. absurd (skips same)
Skips-IsNotNewer k (update_price j info) (some u) v skips bound = λ same. omega (arith, skips same)
Skips-IsNotNewer k (lookup_all_price_info _) none v skips bound = tt
Skips-IsNotNewer k (lookup_all_price_info _) (some u) v skips bound = tt

IsNewest-cons :
    (k : Identifier) (m : Message) (ms : List Message) (v : PriceInfo)
    → IsNotNewer k v.timestamp m
    → IsNewest k v ms
    → IsNewest k v (m ∷ ms)
IsNewest-cons k m ms v h n = record {
  before = m ∷ n.before;
  after = n.after;
  split = ap (λ l. m ∷ l) n.split;
  none_newer = (h, n.none_newer);
  rest_older = n.rest_older;
}

kept_cons :
    (k : Identifier) (m : Message) (ms : List Message) (old r : Option PriceInfo)
    → Skips k m old
    → Outcome k ms old r
    → Outcome k (m ∷ ms) old r
kept_cons k m ms none none skips (unset, rest) = (unset, (skips, rest))
kept_cons k m ms (some u) none skips (unset, rest) = cc
kept_cons k m ms none (some v) skips (inl (held, rest)) = cc
kept_cons k m ms (some u) (some v) skips (inl (held, rest)) =
    inl (held, (subst (λ w. IsOlder k w.timestamp m) (some_inj u v held) skips, rest))
kept_cons k m ms old (some v) skips (inr (newest, bound)) =
    inr (IsNewest-cons k m ms v (Skips-IsNotNewer k m old v skips bound) newest, bound)

Bounds-trans :
    (old : Option PriceInfo) (w v : PriceInfo)
    → Bounds old w
    → w.timestamp ≤ℤ v.timestamp
    → Bounds old v
Bounds-trans none w v b h = tt
Bounds-trans (some u) w v b h = omega arith

changed_cons :
    (k : Identifier) (ms : List Message) (w : PriceInfo) (old r : Option PriceInfo)
    → Bounds old w
    → Outcome k ms (some w) r
    → Outcome k (update_price k w ∷ ms) old r
changed_cons k ms w old none b (unset, rest) = cc
changed_cons k ms w old (some v) b (inl (held, rest)) =
    subst (λ u. Outcome k (update_price k w ∷ ms) old (some u)) (some_inj w v held)
      (inr (
        record {
          before = [];
          after = ms;
          split = refl;
          none_newer = tt;
          rest_older = subst (λ u. All (IsOlder k u.timestamp) ms) (sym (some_inj w v held)) rest;
        },
        b,
      ))
changed_cons k ms w old (some v) b (inr (newest, bound)) =
    inr (IsNewest-cons k (update_price k w) ms v (λ _. bound) newest, Bounds-trans old w v b bound)

pub Outcome-cons :
    (k : Identifier) (m : Message) (ms : List Message) (old mid r : Option PriceInfo)
    → StepOutcome k m old mid
    → Outcome k ms mid r
    → Outcome k (m ∷ ms) old r
Outcome-cons k m ms old mid r (kept e skips) h =
    kept_cons k m ms old r skips (subst (λ o. Outcome k ms o r) (sym e) h)
Outcome-cons k m ms old mid r (changed v e f b) h =
    subst (λ n. Outcome k (n ∷ ms) old r) (sym e)
      (changed_cons k ms v old r b (subst (λ o. Outcome k ms o r) f h))
