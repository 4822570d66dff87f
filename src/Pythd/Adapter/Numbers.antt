-- ===== src/Pythd/Adapter/Numbers.antt =====
-- The numbers of the subscriptions.
use pyth_agent.Prelude.{
  ℕ, suc, ◌+◌, ◌≤◌, ◌<◌, ◌^◌, ◌≡◌, refl, sym, ap, ◌∙◌, subst, arith, inl, inr, List, [], ◌∷◌,
  length,
}
use pyth_agent.Prelude.Int.{ℤ, pos}
use pyth_agent.Prelude.Maps.{lookup, nat_key}
use pyth_agent.Solana.{Identifier, Env}
use pyth_agent.Pythd.Adapter.{
  Subscription, Adapter, Turn, new, drop_closed_subscriptions, step, run, subscriptions_of,
}
use pyth_agent.Pythd.Adapter.Entries.{
  Kind, Has, Keeps, Adds, next-pos, drop-Keeps, subscribe-Adds, price, sched,
}
use pyth_agent.Pythd.Adapter.Tables.{handle_event-Shape, Shape}

-- Two subscriptions with one number are the same, of one kind and under one key.
abbrev pub IsUnambiguous : Adapter → Type 0
IsUnambiguous s =
    (c d : Kind) (j k : Identifier) (a b : Subscription)
    → Has s c j a
    → Has s d k b
    → a.subscription_id ≡ b.subscription_id
    → (c ≡ d) × (j ≡ k) × (a ≡ b)

-- The numbers given out are those up to `n`.
record Numbered (n : ℕ) (s : Adapter) : Type 0 where
  pub count : s.subscription_id_count ≡ pos n
  pub number :
      (c : Kind) (k : Identifier) (a : Subscription)
      → Has s c k a
      → (i : ℕ) × (a.subscription_id ≡ pos i) × (i ≤ n)
  pub unambiguous : IsUnambiguous s

Numbered-Keeps : (n : ℕ) (s t : Adapter) → Keeps s t → Numbered n s → Numbered n t
Numbered-Keeps n s t k h = record {
  count = k.count ∙ h.count;
  number = λ c j a m. h.number c j a (k.from c j a m);
  unambiguous =
      λ c d j i a b ma mb e. h.unambiguous c d j i a b (k.from c j a ma) (k.from d i b mb) e;
}

clash : (n i : ℕ) (x y : ℤ) → x ≡ pos i → i ≤ n → y ≡ pos (suc n) → ¬ (x ≡ y)
clash n i x y e h f g = let same : pos i ≡ pos (suc n) = sym e ∙ g ∙ f in ground arith

Numbered-Adds :
    (n : ℕ) (s t : Adapter) → suc n < 2 ^ 63 → Adds s t → Numbered n s → Numbered (suc n) t
Numbered-Adds n s t room add h = record {
  count = add.count ∙ next-pos n s h.count room;
  number = λ c k a m. elim (add.from c k a m) [
    | inl old ↦ let (i, e, le) = h.number c k a old in (i, e, omega arith)
    | inr (_, _, same) ↦ (suc n, ap (λ x. x.subscription_id) (sym same) ∙ numbered, omega arith)
  ];
  unambiguous = λ c d j k a b ma mb e. elim (add.from c j a ma) [
    | inl old ↦ elim (add.from d k b mb) [
      | inl also ↦ h.unambiguous c d j k a b old also e
      | inr (_, _, same) ↦ absurd (collide c j a b old same e)
    ]
    | inr (c_new, j_new, same) ↦ elim (add.from d k b mb) [
      | inl old ↦ absurd (collide d k b a old same (sym e))
      | inr (d_new, k_new, also) ↦ (c_new ∙ sym d_new, sym j_new ∙ k_new, sym same ∙ also)
    ]
  ];
}
  where
    numbered : add.sub.subscription_id ≡ pos (suc n)
    numbered = add.number ∙ next-pos n s h.count room

    collide :
        (c : Kind) (k : Identifier) (a b : Subscription)
        → Has s c k a
        → add.sub ≡ b
        → ¬ (a.subscription_id ≡ b.subscription_id)
    collide c k a b old same e =
        let (i, f, le) = h.number c k a old in
        clash n i a.subscription_id b.subscription_id f le
          (ap (λ x. x.subscription_id) (sym same) ∙ numbered) e

Numbered-Shape :
    (n : ℕ) (s t : Adapter)
    → suc n < 2 ^ 63
    → Shape s t
    → Numbered n s
    → (m : ℕ) × (m ≤ suc n) × Numbered m t
Numbered-Shape n s t room (inl same) h = (n, omega arith, subst (Numbered n) same h)
Numbered-Shape n s t room (inr (c, k, tx, same)) h = (
  suc n,
  omega arith,
  subst (Numbered (suc n)) same (Numbered-Adds n s _ room (subscribe-Adds c k tx s) h),
)

module _ ⦃env : Env⦄ where
  step-Numbered :
      (n : ℕ) (t : Turn) (s : Adapter)
      → suc n < 2 ^ 63
      → Numbered n s
      → (m : ℕ) × (m ≤ suc n) × Numbered m (step t s).1
  unfolding step
  step-Numbered n t s room h =
      let dropped = drop_closed_subscriptions t.was_open s in
      Numbered-Shape n dropped _ room (handle_event-Shape t.inputs t.event dropped)
        (Numbered-Keeps n s dropped (drop-Keeps t.was_open s) h)

  run-Numbered :
      (n : ℕ) (ts : List Turn) (s : Adapter)
      → n + length ts < 2 ^ 63
      → Numbered n s
      → (m : ℕ) × Numbered m (run ts s).1
  unfolding run
  run-Numbered n [] s room h = (n, h)
  run-Numbered n (t ∷ ts) s room h =
      let (m, le, h') = step-Numbered n t s (omega arith) h in
      run-Numbered m ts (step t s).1 (omega arith) h'

  new-Numbered : Numbered 0 new
  unfolding new subscriptions_of lookup
  new-Numbered = record {
    count = refl;
    number = λ c k a m. absurd (none-new c k a m);
    unambiguous = λ c d j k a b ma mb e. absurd (none-new c j a ma);
  }
    where
      none-new : (c : Kind) (k : Identifier) (a : Subscription) → ¬ Has new c k a
      none-new price k a m = m
      none-new sched k a m = m

  -- After fewer than 2^63 turns of a new adapter, no two subscriptions have the same number: those
  -- with equal numbers are of one kind, under one key, and for one channel.
  pub run-new-IsUnambiguous : (ts : List Turn) → length ts < 2 ^ 63 → IsUnambiguous (run ts new).1
  run-new-IsUnambiguous ts room = (run-Numbered 0 ts new (omega arith) new-Numbered).1.unambiguous
