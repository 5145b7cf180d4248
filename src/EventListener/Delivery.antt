-- ===== src/EventListener/Delivery.antt =====
-- At most once: what was processed is not processed again; and what a poll passes over for ever.
use ahjoor_backend.Common.{
  ℕ, ◌≤◌, ◌<◌, ◌≡◌, refl, ap, sym, ◌∙◌, subst, ◌⊎◌, inl, inr, arith, true, false, Option, none,
  some, List, [], ◌∷◌, ◌++◌, find, All, Bool-cases, Option-cases, ==_refl,
}
use ahjoor_backend.EventListener.Payload.{Readings, Transaction}
use ahjoor_backend.EventListener.{
  Listener, Response, body, has_hash, is_skipped, process_transaction, process_transactions,
  poll_now, fetch_transactions_since,
}

module _ (readings : Readings) (new_id now : ℕ → ℕ) where
  -- A poll from the ledger passes over the transaction.
  abbrev IsDone : ℕ → List ℕ → Transaction → Type 0
  IsDone last hashes tx = (is_skipped last tx ≡ true) ⊎ (has_hash tx.hash hashes ≡ true)

  process_transaction-done :
      (last : ℕ) (tx : Transaction) (s : Listener)
      → IsDone last s.processed tx
      → ((process_transaction readings new_id now last tx s).db ≡ s.db)
        × ((process_transaction readings new_id now last tx s).processed ≡ s.processed)
  unfolding process_transaction
  process_transaction-done last tx s (inl skipped) = ground arith
  process_transaction-done last tx s (inr processed) = ground arith

  process_transactions-done :
      (last : ℕ) (hashes : List ℕ) (txs : List Transaction) (s : Listener)
      → s.processed ≡ hashes
      → All (IsDone last hashes) txs
      → (process_transactions readings new_id now last txs s).db ≡ s.db
  unfolding process_transactions
  process_transactions-done last hashes [] s e h = refl
  process_transactions-done last hashes (tx ∷ txs) s e h =
      let (same, kept) =
        process_transaction-done last tx s (subst (λ l. IsDone last l tx) (sym e) h.0) in
      process_transactions-done last hashes txs (process_transaction readings new_id now last tx s)
        (kept ∙ e) h.1
      ∙ same

  process_transaction-grows :
      (last hash : ℕ) (tx : Transaction) (s : Listener)
      → has_hash hash s.processed ≡ true
      → has_hash hash (process_transaction readings new_id now last tx s).processed ≡ true
  unfolding process_transaction find
  process_transaction-grows last hash tx s h = ground arith

  process_transaction-marks :
      (last : ℕ) (tx : Transaction) (s : Listener)
      → IsDone last (process_transaction readings new_id now last tx s).processed tx
  unfolding process_transaction find
  process_transaction-marks last tx s = elim (Bool-cases (is_skipped last tx)) [
    | inl skipped ↦ inl skipped
    | inr fresh ↦ inr (ground (arith, ==_refl tx.hash))
  ]

  process_transaction-last :
      (last : ℕ) (tx : Transaction) (s : Listener)
      → last ≤ s.last_ledger
      → last ≤ (process_transaction readings new_id now last tx s).last_ledger
  unfolding process_transaction
  process_transaction-last last tx s h = ground arith

  process_transactions-last :
      (last : ℕ) (txs : List Transaction) (s : Listener)
      → last ≤ s.last_ledger
      → last ≤ (process_transactions readings new_id now last txs s).last_ledger
  unfolding process_transactions
  process_transactions-last last [] s h = h
  process_transactions-last last (tx ∷ txs) s h =
      process_transactions-last last txs (process_transaction readings new_id now last tx s)
        (process_transaction-last last tx s h)

  process_transactions-grows :
      (last hash : ℕ) (txs : List Transaction) (s : Listener)
      → has_hash hash s.processed ≡ true
      → has_hash hash (process_transactions readings new_id now last txs s).processed ≡ true
  unfolding process_transactions
  process_transactions-grows last hash [] s h = h
  process_transactions-grows last hash (tx ∷ txs) s h =
      process_transactions-grows last hash txs (process_transaction readings new_id now last tx s)
        (process_transaction-grows last hash tx s h)

  -- After a poll it is done with all that it was given, from any later ledger.
  process_transactions-IsDone :
      (last later : ℕ) (txs : List Transaction) (s : Listener)
      → last ≤ later
      → All (IsDone later (process_transactions readings new_id now last txs s).processed) txs
  unfolding process_transactions
  process_transactions-IsDone last later [] s le = tt
  process_transactions-IsDone last later (tx ∷ txs) s le =
      let next = process_transaction readings new_id now last tx s in
      (
        elim (process_transaction-marks last tx s) [
          | inl skipped ↦ inl (ground arith)
          | inr marked ↦ inr (process_transactions-grows last tx.hash txs next marked)
        ],
        process_transactions-IsDone last later txs next le,
      )

  -- Polling a second time, with the same answer of Horizon, changes nothing in the database.
  pub poll_now_twice :
      (address : Option ℕ) (contract account : Response) (s : Listener)
      → let once = (poll_now readings new_id now address contract account s).0 in
        (poll_now readings new_id now address contract account once).0.db ≡ once.db
  unfolding poll_now
  poll_now_twice none contract account s = refl
  poll_now_twice (some a) contract account s =
      elim (Option-cases (fetch_transactions_since contract account)) [
        | inl e ↦ ground (arith, e)
        | inr (txs, e) ↦
            let once = process_transactions readings new_id now s.last_ledger txs s in
            let same = process_transactions-done once.last_ledger once.processed txs once refl (
              process_transactions-IsDone s.last_ledger once.last_ledger txs s
                (process_transactions-last s.last_ledger txs s (omega arith))) in
            ground (arith, e, same)
      ]

  process_transactions-append :
      (last : ℕ) (xs ys : List Transaction) (s : Listener)
      → process_transactions readings new_id now last (xs ++ ys) s
        ≡ process_transactions readings new_id now last ys
            (process_transactions readings new_id now last xs s)
  unfolding process_transactions
  process_transactions-append last [] ys s = refl
  process_transactions-append last (x ∷ xs) ys s =
      process_transactions-append last xs ys (process_transaction readings new_id now last x s)

  process_transaction-ledger :
      (last : ℕ) (tx : Transaction) (s : Listener)
      → is_skipped last tx ≡ false
      → (process_transaction readings new_id now last tx s).last_ledger ≡ tx.ledger
  unfolding process_transaction
  process_transaction-ledger last tx s h = ground arith

  -- Where the answer of Horizon ends within a ledger, the next transaction of that ledger, alone
  -- in a later answer, is passed over: nothing changes and it is not marked as processed.
  pub same_ledger_lost :
      (address : ℕ) (txs : List Transaction) (final late : Transaction) (s : Listener)
      → 0 < final.ledger
      → s.last_ledger < final.ledger
      → late.ledger ≡ final.ledger
      → let once =
          (poll_now readings new_id now
            (some address)
            (body (txs ++ final ∷ []))
            Response.missing
            s).0 in
        poll_now readings new_id now (some address) (body (late ∷ [])) Response.missing once
        ≡ (once, false)
  unfolding poll_now fetch_transactions_since process_transactions process_transaction
  same_ledger_lost address txs final late s positive after same =
      let once = process_transactions readings new_id now s.last_ledger (txs ++ final ∷ []) s in
      let before = process_transactions readings new_id now s.last_ledger txs s in
      let ended : once.last_ledger ≡ final.ledger =
        ap (λ (l : Listener). l.last_ledger)
          (process_transactions-append s.last_ledger txs (final ∷ []) s)
        ∙ process_transaction-ledger s.last_ledger final before (ground arith) in
      ground (arith, ended)
