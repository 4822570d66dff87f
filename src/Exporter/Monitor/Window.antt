-- ===== src/Exporter/Monitor/Window.antt =====
-- The monitor holds the newest transactions.
use pyth_agent.Prelude.{
  ℕ, zero, suc, ◌+◌, ◌-◌, ◌≤◌, ◌<◌, ◌≡◌, refl, ap, sym, ◌∙◌, List, [], ◌∷◌, ◌++◌, Option, none,
  some, ok, length, length-append, drop, ltb, arith, true, false, Bool-cases, inl, inr,
}
use mathlib.Core.List.{append_assoc, append-nil}
use pyth_agent.Exporter.Batch.{Signature}
use pyth_agent.Exporter.{MonitorConfig}
use pyth_agent.Exporter.Monitor.{
  TransactionMonitor, Event, received, tick, new, add_transaction, pop_front, handle_next, run,
  Statuses, count_confirmed, poll_transactions_status, poll_signatures,
}

-- The signatures that a history brings, in their order.
abbrev pub signatures : List Event → List Signature
signatures [] = []
signatures (received s ∷ es) = s ∷ signatures es
signatures (tick answer ∷ es) = signatures es

-- The last `n` elements.
abbrev pub last_n : ℕ → List Signature → List Signature
last_n n xs = drop (length xs - n) xs

drop-nil : (n : ℕ) → drop {A = Signature} n [] ≡ []
drop-nil zero = refl
drop-nil (suc n) = refl

drop-append_short :
    (n : ℕ) (xs ys : List Signature) → n ≤ length xs → drop n (xs ++ ys) ≡ drop n xs ++ ys
drop-append_short zero xs ys h = refl
drop-append_short (suc n) [] ys h = absurd (omega arith)
drop-append_short (suc n) (x ∷ xs) ys h = drop-append_short n xs ys (omega arith)

drop-suc : (n : ℕ) (xs : List Signature) → drop (suc n) xs ≡ pop_front (drop n xs)
unfolding pop_front
drop-suc zero [] = refl
drop-suc zero (x ∷ xs) = refl
drop-suc (suc n) [] = refl
drop-suc (suc n) (x ∷ xs) = drop-suc n xs

length-drop : (n : ℕ) (xs : List Signature) → length (drop n xs) ≡ length xs - n
length-drop zero xs = omega arith
length-drop (suc n) [] = omega arith
length-drop (suc n) (x ∷ xs) = omega (arith, length-drop n xs)

drop_none : (n : ℕ) (xs : List Signature) → n ≡ 0 → drop n xs ≡ xs
drop_none zero xs h = refl
drop_none (suc n) xs h = absurd (omega (arith, h))

-- Where the list is shorter than the window, the window is the list.
last_n-grow :
    (n : ℕ) (xs : List Signature) (s : Signature)
    → length xs < n
    → last_n n xs ++ s ∷ [] ≡ last_n n (xs ++ s ∷ [])
last_n-grow n xs s h =
    ap (λ l. l ++ s ∷ []) (drop_none (length xs - n) xs (omega arith))
    ∙ sym (
        drop_none (length (xs ++ s ∷ []) - n) (xs ++ s ∷ [])
          (omega (arith, length-append xs (s ∷ []))))

last_n-slide :
    (n : ℕ) (xs : List Signature) (s : Signature)
    → n ≤ length xs
    → pop_front (last_n n xs ++ s ∷ []) ≡ last_n n (xs ++ s ∷ [])
last_n-slide n xs s h =
    let one_more : suc (length xs - n) ≡ length (xs ++ s ∷ []) - n =
      omega (arith, length-append xs (s ∷ [])) in
    ap pop_front (sym (drop-append_short (length xs - n) xs (s ∷ []) (omega arith)))
    ∙ sym (drop-suc (length xs - n) (xs ++ s ∷ []))
    ∙ ap (λ k. drop k (xs ++ s ∷ [])) one_more

-- One more signature moves the window by one.
last_n-snoc :
    (n : ℕ) (xs : List Signature) (s : Signature) (m : TransactionMonitor)
    → m.config.max_transactions ≡ n
    → m.sent_transactions ≡ last_n n xs
    → (add_transaction s m).sent_transactions ≡ last_n n (xs ++ s ∷ [])
unfolding add_transaction
last_n-snoc n xs s m c e =
    rw (e, c, length-append (last_n n xs) (s ∷ []), length-drop (length xs - n) xs)
      (elim (Bool-cases (ltb n (length xs - (length xs - n) + 1))) [
        | inl t ↦ rw t (last_n-slide n xs s (ground (arith, t)))
        | inr f ↦ rw f (last_n-grow n xs s (ground (arith, f)))
      ])

run-last_n :
    (n : ℕ) (before : List Signature) (es : List Event) (m : TransactionMonitor)
    → m.config.max_transactions ≡ n
    → m.sent_transactions ≡ last_n n before
    → (run es m).sent_transactions ≡ last_n n (before ++ signatures es)
unfolding run handle_next add_transaction
run-last_n n before [] m c e = rw append-nil e
run-last_n n before (received s ∷ es) m c e =
    run-last_n n (before ++ s ∷ []) es (add_transaction s m) c (last_n-snoc n before s m c e)
    ∙ ap (last_n n) (append_assoc before (s ∷ []) (signatures es))
run-last_n n before (tick answer ∷ es) m c e = run-last_n n before es m c e

-- After any history the monitor holds the newest transactions that it received, in their order, as
-- many as the configuration allows or all of them.
pub run-new-last_n :
    (config : MonitorConfig) (es : List Event)
    → (run es (new config)).sent_transactions ≡ last_n config.max_transactions (signatures es)
unfolding new
run-new-last_n config es =
    run-last_n config.max_transactions [] es (new config) refl
      (sym (drop-nil (0 - config.max_transactions)))

count_confirmed-le : (ss : Statuses) (sigs : List Signature) → count_confirmed ss sigs ≤ length sigs
unfolding count_confirmed
count_confirmed-le [] sigs = omega arith
count_confirmed-le (some true ∷ ss) [] = omega arith
count_confirmed-le (some false ∷ ss) [] = omega arith
count_confirmed-le (none ∷ ss) [] = omega arith
count_confirmed-le (some true ∷ ss) (sig ∷ sigs) = omega (arith, count_confirmed-le ss sigs)
count_confirmed-le (some false ∷ ss) (sig ∷ sigs) = omega (arith, count_confirmed-le ss sigs)
count_confirmed-le (none ∷ ss) (sig ∷ sigs) = omega (arith, count_confirmed-le ss sigs)

poll_signatures_counts :
    (answer : Option Statuses) (sigs : List Signature) (confirmed watched : ℕ)
    → poll_signatures answer sigs ≡ ok (some (confirmed, watched))
    → (watched ≡ length sigs) × (0 < watched) × (confirmed ≤ watched)
unfolding poll_signatures
poll_signatures_counts answer [] c w e = cc
poll_signatures_counts none (sig ∷ sigs) c w e = cc
poll_signatures_counts (some ss) (sig ∷ sigs) c w e =
    let same_c : count_confirmed ss (sig ∷ sigs) ≡ c = cc in
    let same_w : length (sig ∷ sigs) ≡ w = cc in
    (
      sym same_w,
      omega (arith, same_w),
      omega (arith, same_c, same_w, count_confirmed-le ss (sig ∷ sigs)),
    )

length-last_n_le : (n : ℕ) (xs : List Signature) → length (last_n n xs) ≤ n
length-last_n_le n xs = omega (arith, length-drop (length xs - n) xs)

-- When a poll after any history reports a percentage, its two counts are sound: at least one
-- transaction is watched, no more than the configuration allows, and the confirmed ones are no more
-- than those.
pub poll-run_bounds :
    (config : MonitorConfig) (es : List Event) (answer : Option Statuses) (confirmed watched : ℕ)
    → poll_transactions_status answer (run es (new config)) ≡ ok (some (confirmed, watched))
    → (0 < watched) × (confirmed ≤ watched) × (watched ≤ config.max_transactions)
unfolding poll_transactions_status
poll-run_bounds config es answer c w e =
    let counts = poll_signatures_counts answer (run es (new config)).sent_transactions c w e in
    let kept = ap length (run-new-last_n config es) in
    (
      counts.1,
      counts.2,
      omega (arith, counts.0, kept, length-last_n_le config.max_transactions (signatures es)),
    )
