-- ===== src/Store/Local/Newest.antt =====
-- Which price the local store holds after a history.
use pyth_agent.Prelude.{
  ◌≡◌, refl, inl, inr, List, [], ◌∷◌, Option, none, some, All, arith, Bool, true, false, Bool-cases,
  Option-cases, ap, subst, ℕ_discrete,
}
use pyth_agent.Prelude.Maps.{lookup, lookup-insert, nat_key}
use pyth_agent.Solana.{Identifier, Env}
use pyth_agent.Store.Price.{PriceInfo}
use pyth_agent.Store.Local.{
  Message, update_price, lookup_all_price_info, Store, new, update, is_stale, handle, run,
}
use pyth_agent.Store.Local.Outcome.{
  IsElsewhere, IsNewest, Bounds, Skips, StepOutcome, kept, changed, some_inj, Outcome, Outcome-cons,
}

Skips-lookup :
    (k : Identifier) (b : Bool) (old : Option PriceInfo) → Skips k (lookup_all_price_info b) old
Skips-lookup k b none = tt
Skips-lookup k b (some u) = tt

-- A refused update is older than what is held, and an accepted one is not.
stale-Skips :
    (k j : Identifier) (info : PriceInfo) (old current : Option PriceInfo)
    → (j ≡ k → current ≡ old)
    → is_stale current info ≡ true
    → Skips k (update_price j info) old
unfolding is_stale
stale-Skips k j info none none same h = λ e. cc
stale-Skips k j info none (some c) same h = λ e. let q = same e in cc
stale-Skips k j info (some u) none same h = λ e. cc
stale-Skips k j info (some u) (some c) same h = λ e. let q = same e in ground arith

fresh-Bounds :
    (info : PriceInfo) (old : Option PriceInfo) → is_stale old info ≡ false → Bounds old info
unfolding is_stale
fresh-Bounds info none h = tt
fresh-Bounds info (some u) h = ground arith

elsewhere-Skips :
    (k j : Identifier) (info : PriceInfo) (old : Option PriceInfo)
    → ¬ (j ≡ k)
    → Skips k (update_price j info) old
elsewhere-Skips k j info none n = n
elsewhere-Skips k j info (some u) n = λ e. absurd (n e)

module _ ⦃env : Env⦄ where
  handle-StepOutcome :
      (k : Identifier) (m : Message) (s : Store env.F64)
      → StepOutcome k m (lookup k s.prices) (lookup k (handle m s).2.prices)
  unfolding handle update
  handle-StepOutcome k (update_price j info) s =
      elim (Bool-cases (is_stale (lookup j s.prices) info)) [
        | inl stale ↦
            rw (stale, update)
              (kept refl (
                stale-Skips k j info (lookup k s.prices) (lookup j s.prices)
                  (ap (λ i. lookup i s.prices)) stale))
        | inr fresh ↦ elim (ℕ_discrete j k) [
          | yes same ↦
              rw (fresh, update)
                (changed info (ap (λ i. update_price i info) same)
                  (ground (arith, lookup-insert k j info s.prices))
                  (fresh-Bounds info (lookup k s.prices)
                    (subst (λ i. is_stale (lookup i s.prices) info ≡ false) same fresh)))
          | no other ↦
              rw (fresh, update)
                (kept (ground (arith, lookup-insert k j info s.prices))
                  (elsewhere-Skips k j info (lookup k s.prices) other))
        ]
      ]
  handle-StepOutcome k (lookup_all_price_info Bool.true) s =
      kept refl (Skips-lookup k Bool.true (lookup k s.prices))
  handle-StepOutcome k (lookup_all_price_info Bool.false) s =
      kept refl (Skips-lookup k Bool.false (lookup k s.prices))

  run-Outcome :
      (k : Identifier) (ms : List Message) (s : Store env.F64)
      → Outcome k ms (lookup k s.prices) (lookup k (run ms s).prices)
  unfolding run
  run-Outcome k [] s = elim (Option-cases (lookup k s.prices)) [
    | inl e ↦ rw e (refl, tt)
    | inr (v, e) ↦ rw e (inl (refl, tt))
  ]
  run-Outcome k (m ∷ ms) s =
      Outcome-cons k m ms (lookup k s.prices) (lookup k (handle m s).2.prices)
        (lookup k (run ms (handle m s).2).prices) (handle-StepOutcome k m s)
        (run-Outcome k ms (handle m s).2)

  -- After any history the store holds a price for `k` only if the history updates `k`, and then the
  -- newest: no update of `k` before it is newer, and each one after it is older.
  pub run-new-IsNewest :
      (k : Identifier) (ms : List Message)
      → ((v : PriceInfo) → lookup k (run ms (new env.F64)).prices ≡ some v → IsNewest k v ms)
        × (lookup k (run ms (new env.F64)).prices ≡ none → All (IsElsewhere k) ms)
  unfolding new lookup
  run-new-IsNewest k ms =
      conclude (lookup k (run ms (new env.F64)).prices) (run-Outcome k ms (new env.F64))
    where
      conclude :
          (r : Option PriceInfo)
          → Outcome k ms none r
          → ((v : PriceInfo) → r ≡ some v → IsNewest k v ms) × (r ≡ none → All (IsElsewhere k) ms)
      conclude none h = (λ v e. cc, λ _. h.1)
      conclude (some w) (inl h) = cc
      conclude (some w) (inr h) =
          (λ v e. subst (λ u. IsNewest k u ms) (some_inj w v e) h.0, λ e. cc)
