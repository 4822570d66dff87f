-- ===== src/Exporter/Publish/Finish.antt =====
-- What a round of `publish_updates` in exporter.rs records at its end.
use pyth_agent.Prelude.{
  ap, ◌∙◌, subst, ok, ℕ_discrete, In-append_cases, ◌≡◌, ◌⊎◌, inl, inr, refl, List, [], ◌∷◌, none,
  some, err, arith, In, In-append_left, In-append_right, Option-cases, Result-cases,
}
use mathlib.Core.List.{flatten}
use mathlib.Core.Logic.{if_pos, if_neg}
use pyth_agent.Prelude.Maps.{
  lookup, insert, lookup-insert, extend, nat_key, HasUniqueKeys, extend-HasUniqueKeys,
  lookup-extend, In-extend, In-lookup,
}
use pyth_agent.Solana.{Identifier}
use pyth_agent.Store.Price.{PriceInfo}
use pyth_agent.Store.Local.{Prices}
use pyth_agent.Exporter.{State}
use pyth_agent.Exporter.Instruction.{Error}
use pyth_agent.Exporter.Batch.{BatchOutput}
use pyth_agent.Exporter.Publish.{Output, collect, batch_state, finish}

In-batch_state :
    (e : Identifier × PriceInfo) (acc : Prices) (bs : List Prices)
    → In e (batch_state acc bs)
    → In e acc ⊎ In e (flatten bs)
unfolding batch_state flatten
In-batch_state e acc [] h = inl h
In-batch_state e acc (b ∷ bs) h = elim (In-batch_state e (extend acc b) bs h) [
  | inl p ↦ elim (In-extend e acc b p) [
    | inl q ↦ inl q
    | inr q ↦ inr (In-append_left e b (flatten bs) q)
  ]
  | inr q ↦ inr (In-append_right e b (flatten bs) q)
]

batch_state-HasUniqueKeys :
    (acc : Prices) (bs : List Prices) → HasUniqueKeys acc → HasUniqueKeys (batch_state acc bs)
unfolding batch_state
batch_state-HasUniqueKeys acc [] h = h
batch_state-HasUniqueKeys acc (b ∷ bs) h =
    batch_state-HasUniqueKeys (extend acc b) bs (extend-HasUniqueKeys acc b h)

-- An entry of the map so far, or of a batch, gives its key an entry in the end.
lookup-extend-some :
    (k : Identifier) (v : PriceInfo) (acc b : Prices)
    → ((w : PriceInfo) × (lookup k acc ≡ some w)) ⊎ In (k, v) b
    → (w : PriceInfo) × (lookup k (extend acc b) ≡ some w)
unfolding extend
lookup-extend-some k v acc [] (inl h) = h
lookup-extend-some k v acc [] (inr m) = absurd m
lookup-extend-some k v acc ((j, u) ∷ b) h =
    lookup-extend-some k v (insert j u acc) b (elim (ℕ_discrete j k) [
      | yes same ↦ inl (u, lookup-insert k j u acc ∙ if_pos (ℕ_discrete j k) same _ _)
      | no other ↦ elim h [
        | inl (w, f) ↦ inl (w, lookup-insert k j u acc ∙ if_neg (ℕ_discrete j k) other _ _ ∙ f)
        | inr (inl here) ↦ absurd (other (ap (λ e. e.0) here))
        | inr (inr m) ↦ inr m
      ]
    ])

lookup-batch_state :
    (k : Identifier) (v : PriceInfo) (acc : Prices) (bs : List Prices)
    → ((w : PriceInfo) × (lookup k acc ≡ some w)) ⊎ In (k, v) (flatten bs)
    → (w : PriceInfo) × (lookup k (batch_state acc bs) ≡ some w)
unfolding batch_state flatten
lookup-batch_state k v acc [] (inl h) = h
lookup-batch_state k v acc [] (inr m) = absurd m
lookup-batch_state k v acc (b ∷ bs) (inl h) =
    lookup-batch_state k v (extend acc b) bs (inl (lookup-extend-some k v acc b (inl h)))
lookup-batch_state k v acc (b ∷ bs) (inr m) = elim (In-append_cases (k, v) b (flatten bs) m) [
  | inl here ↦
      lookup-batch_state k v (extend acc b) bs (inl (lookup-extend-some k v acc b (inr here)))
  | inr later ↦ lookup-batch_state k v (extend acc b) bs (inr later)
]

-- Each entry of `after` was there before, or is one of `updates`.
abbrev pub ComesFrom : (before updates after : Prices) → Type 0
ComesFrom before updates after =
    (k : Identifier) (v : PriceInfo)
    → lookup k after ≡ some v
    → (lookup k before ≡ some v) ⊎ In (k, v) updates

-- No entry is lost.
abbrev pub Keeps : (before after : Prices) → Type 0
Keeps before after =
    (k : Identifier) (u : PriceInfo)
    → lookup k before ≡ some u
    → (v : PriceInfo) × (lookup k after ≡ some v)

-- Each key of `updates` is recorded with a price of `updates`.
abbrev pub HasAllOf : (updates after : Prices) → Type 0
HasAllOf updates after =
    (k : Identifier) (v : PriceInfo)
    → In (k, v) updates
    → (w : PriceInfo) × (lookup k after ≡ some w) × In (k, w) updates

module _ (last : Prices) (bs : List Prices) where
  abbrev recorded : Prices
  recorded = batch_state [] bs

  lookup-recorded :
      (k : Identifier)
      → lookup k (extend last recorded)
        ≡ elim (lookup k recorded) [ some v ↦ some v | none ↦ lookup k last ]
  lookup-recorded k = lookup-extend k last recorded (batch_state-HasUniqueKeys [] bs tt)

  extend-ComesFrom : ComesFrom last (flatten bs) (extend last recorded)
  extend-ComesFrom k v e = elim (Option-cases (lookup k recorded)) [
    | inl f ↦ inl (ground (arith, lookup-recorded k))
    | inr (w, f) ↦
        let same : lookup k recorded ≡ some v = ground (arith, lookup-recorded k) in
        elim (In-batch_state (k, v) [] bs (In-lookup k v recorded same)) [
          | inl none_yet ↦ absurd none_yet
          | inr m ↦ inr m
        ]
  ]

  extend-HasAllOf : HasAllOf (flatten bs) (extend last recorded)
  extend-HasAllOf k v m =
      let (w, f) = lookup-batch_state k v [] bs (inr m) in
      (
        w,
        ground (arith, lookup-recorded k),
        elim (In-batch_state (k, w) [] bs (In-lookup k w recorded f)) [
          | inl none_yet ↦ absurd none_yet
          | inr n ↦ n
        ],
      )

  extend-Keeps : Keeps last (extend last recorded)
  extend-Keeps k u e = elim (Option-cases (lookup k recorded)) [
    | inl f ↦ (u, ground (arith, lookup-recorded k))
    | inr (w, f) ↦ (w, ground (arith, lookup-recorded k))
  ]

-- A round leaves a state whose published prices are the old ones and some of `updates`: one for each
-- key of `updates` if it succeeds, and none if it fails.
pub record Records {K : Type 0} (s : State) (updates : Prices) (out : Output K) : Type 0 where
  pub comes_from : ComesFrom s.last_published_state updates out.state.last_published_state
  pub keeps : Keeps s.last_published_state out.state.last_published_state
  pub ok_records : out.result ≡ ok tt → HasAllOf updates out.state.last_published_state
  pub error_keeps :
      (e : Error) → out.result ≡ err e → out.state.last_published_state ≡ s.last_published_state

pub unchanged-Records :
    {K : Type 0} (s : State) (updates : Prices) (out : Output K)
    → out.state.last_published_state ≡ s.last_published_state
    → (out.result ≡ ok tt → updates ≡ [])
    → Records s updates out
unchanged-Records s updates out same no_updates = record {
  comes_from = λ k v e. inl (rw same at e);
  keeps = λ k u e. (u, rw same e);
  ok_records = λ done k v m. absurd (subst (In (k, v)) (no_updates done) m);
  error_keeps = λ e h. same;
}

pub finish-Records :
    {K : Type 0} (s : State) (batches : List Prices) (outputs : List (BatchOutput K))
    → Records s (flatten batches) (finish s batches outputs)
unfolding finish
finish-Records s batches outputs = elim (Result-cases (collect outputs)) [
  | inl (_, e) ↦
      rw (e, finish)
        (record {
          comes_from = extend-ComesFrom s.last_published_state batches;
          keeps = extend-Keeps s.last_published_state batches;
          ok_records = λ done. extend-HasAllOf s.last_published_state batches;
          error_keeps = λ e h. cc;
        })
  | inr (x, e) ↦ rw (e, finish) (unchanged-Records s (flatten batches) _ refl (λ done. cc))
]
