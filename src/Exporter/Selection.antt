-- ===== src/Exporter/Selection.antt =====
-- Which prices of the local store the exporter takes, against a description over exact integers.
use pyth_agent.Prelude.{
  ℕ, ◌^◌, ◌<◌, ◌≡◌, ◌↔◌, ◌⊎◌, inl, inr, refl, sym, ◌∙◌, subst, if◌then◌else◌, true, not, List, [],
  ◌∷◌, ◌++◌, none, some, retain, arith, In, In-retain, In-retain_intro, Bool-cases, Option-cases,
}
use pyth_agent.Prelude.Int.{ℤ, pos, ◌-ℤ◌, ◌<ℤ◌, IsI64, ltb_ℤ, sub_i64, as_i64, wrap_i64_id}
use pyth_agent.Prelude.Maps.{lookup, nat_key}
use pyth_agent.Solana.{Pubkey, Identifier}
use pyth_agent.Store.Price.{PriceInfo, cmp_no_timestamp, cmp_no_timestamp_iff}
use pyth_agent.Store.Local.{Prices}
use pyth_agent.Exporter.{
  Config, Permissions, as_secs, is_newer, is_recent, is_due, fresh_updates, update_our_prices,
}

-- The thresholds and the differences of timestamps fit into an `i64`.
pub record HasRoom (config : Config) (last : Prices) (now : ℤ) (e : Identifier × PriceInfo)
    : Type 0 where
  pub staleness : as_secs config.staleness_threshold < 2 ^ 63
  pub unchanged : as_secs config.unchanged_publish_threshold < 2 ^ 63
  pub age : IsI64 (now -ℤ e.1.timestamp)
  pub delay : (l : PriceInfo) → lookup e.0 last ≡ some l → IsI64 (e.1.timestamp -ℤ l.timestamp)

abbrev pub IsUnchanged : PriceInfo → PriceInfo → Type 0
IsUnchanged l info = (l.status ≡ info.status) × (l.price ≡ info.price) × (l.conf ≡ info.conf)

-- A price is to be published if it is recent and, where its identifier was published before, newer
-- than what was published, and changed or long enough after it.
pub record ShouldPublish (config : Config) (last : Prices) (now : ℤ) (e : Identifier × PriceInfo)
    : Type 0 where
  pub recent : (now -ℤ e.1.timestamp) <ℤ pos (as_secs config.staleness_threshold)
  pub newer : (l : PriceInfo) → lookup e.0 last ≡ some l → l.timestamp <ℤ e.1.timestamp
  pub due :
      (l : PriceInfo)
      → lookup e.0 last ≡ some l
      → (pos (as_secs config.unchanged_publish_threshold) <ℤ (e.1.timestamp -ℤ l.timestamp))
        ⊎ (¬ IsUnchanged l e.1)

sub_i64_exact : (a b : ℤ) → IsI64 (a -ℤ b) → sub_i64 a b ≡ a -ℤ b
unfolding sub_i64
sub_i64_exact a b h = wrap_i64_id (a -ℤ b) h

as_i64_exact : (n : ℕ) → n < 2 ^ 63 → as_i64 n ≡ pos n
unfolding as_i64
as_i64_exact n h = wrap_i64_id (pos n) (omega arith)

module _ (config : Config) (last : Prices) (now : ℤ) (id : Identifier) (info : PriceInfo)
    (room : HasRoom config last now (id, info)) where
  is_recent_iff :
      (is_recent config now (id, info) ≡ true)
      ↔ ((now -ℤ info.timestamp) <ℤ pos (as_secs config.staleness_threshold))
  unfolding is_recent
  is_recent_iff =
      rw
        (
          sub_i64_exact now info.timestamp room.age,
          as_i64_exact (as_secs config.staleness_threshold) room.staleness,
        )
        (ground arith)

  is_newer_iff :
      (is_newer last (id, info) ≡ true)
      ↔ ((l : PriceInfo) → lookup id last ≡ some l → l.timestamp <ℤ info.timestamp)
  unfolding is_newer
  is_newer_iff = elim (Option-cases (lookup id last)) [
    | inl e ↦ (λ _ l f. cc, λ _. rw (e, is_newer))
    | inr (l, e) ↦ (
      λ h m f.
          let same : some l ≡ some m = sym e ∙ f in let g = rw (e, is_newer) at h in ground arith,
      λ h. rw (e, is_newer) (let q = h l e in ground arith),
    )
  ]

  due_iff :
      (l : PriceInfo)
      → IsI64 (info.timestamp -ℤ l.timestamp)
      → ((if ltb_ℤ
              (as_i64 (as_secs config.unchanged_publish_threshold))
              (sub_i64 info.timestamp l.timestamp)
            then true
            else not (cmp_no_timestamp l info))
          ≡ true)
        ↔ ((pos (as_secs config.unchanged_publish_threshold) <ℤ (info.timestamp -ℤ l.timestamp))
            ⊎ (¬ IsUnchanged l info))
  due_iff l fits =
      rw
        (
          sub_i64_exact info.timestamp l.timestamp fits,
          as_i64_exact (as_secs config.unchanged_publish_threshold) room.unchanged,
        )
        (elim (Bool-cases (cmp_no_timestamp l info)) [
          | inl same ↦ (
            λ h. inl (ground arith),
            λ h. elim h [
              | inl late ↦ ground arith
              | inr differs ↦ absurd (differs ((cmp_no_timestamp_iff l info).0 same))
            ],
          )
          | inr other ↦ (
            λ h. inr (λ same. let q = (cmp_no_timestamp_iff l info).1 same in cc),
            λ h. ground arith,
          )
        ])

  is_due_iff : (is_due config last (id, info) ≡ true) ↔ (
      (l : PriceInfo)
      → lookup id last ≡ some l
      → (pos (as_secs config.unchanged_publish_threshold) <ℤ (info.timestamp -ℤ l.timestamp))
        ⊎ (¬ IsUnchanged l info))
  unfolding is_due
  is_due_iff = elim (Option-cases (lookup id last)) [
    | inl e ↦ (λ _ l f. cc, λ _. rw (e, is_due))
    | inr (l, e) ↦ (
      λ h m f.
          let same : l ≡ m = let q : some l ≡ some m = sym e ∙ f in cc in
          subst
            (λ k.
              (pos (as_secs config.unchanged_publish_threshold) <ℤ (info.timestamp -ℤ k.timestamp))
              ⊎ (¬ IsUnchanged k info))
            same ((due_iff l (room.delay l e)).0 (rw (e, is_due) at h)),
      λ h. rw (e, is_due) ((due_iff l (room.delay l e)).1 (h l e)),
    )
  ]

  -- Where the differences of timestamps and the two thresholds, in seconds, fit into an `i64`, the
  -- exporter takes a price of the local store exactly if it should be published: it is recent and, if its identifier was published
  -- before, newer than that, and changed or past the delay for unchanged prices.
  pub In-fresh_updates_iff :
      (contents : Prices)
      → In (id, info) (fresh_updates config last now contents)
        ↔ (In (id, info) contents × ShouldPublish config last now (id, info))
  unfolding fresh_updates
  In-fresh_updates_iff contents = (taken, kept)
    where
      newest : Prices
      newest = retain (is_newer last) contents

      taken :
          In (id, info) (fresh_updates config last now contents)
          → In (id, info) contents × ShouldPublish config last now (id, info)
      taken m =
          let due =
            In-retain (id, info) (is_due config last) (retain (is_recent config now) newest) m in
          let recent = In-retain (id, info) (is_recent config now) newest due.0 in
          let newer = In-retain (id, info) (is_newer last) contents recent.0 in
          (
            newer.0,
            record {
              recent = is_recent_iff.0 recent.1;
              newer = is_newer_iff.0 newer.1;
              due = is_due_iff.0 due.1;
            },
          )

      kept :
          In (id, info) contents × ShouldPublish config last now (id, info)
          → In (id, info) (fresh_updates config last now contents)
      kept (m, should) =
          In-retain_intro (id, info) (is_due config last) (retain (is_recent config now) newest)
            (In-retain_intro (id, info) (is_recent config now) newest
              (In-retain_intro (id, info) (is_newer last) contents m (is_newer_iff.1 should.newer))
              (is_recent_iff.1 should.recent))
            (is_due_iff.1 should.due)

-- What the last message of the permissions channel says of the publisher counts, or where there is no
-- message what was known before.
pub update_our_prices-last :
    (k : Pubkey) (before : List Permissions) (p : Permissions) (ours : List Pubkey)
    → update_our_prices k (before ++ p ∷ []) ours
      ≡ elim (lookup k p) [ some keys ↦ keys | none ↦ [] ]
unfolding update_our_prices
update_our_prices-last k [] p ours = refl
update_our_prices-last k (q ∷ before) p ours = update_our_prices-last k before p _
