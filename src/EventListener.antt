-- ===== src/EventListener.antt =====
-- ahjoorxmr/src/event-listener/event-listener.service.ts: the transactions of the contract, read from
-- Horizon, and what their events change. Redis answers; the two answers of Horizon and what the Stellar
-- SDK reads from a transaction are arguments. A transaction has a hash.
pub mod Payload
pub mod Handlers
pub mod Delivery
pub mod Rounds
mod Tests
use ahjoor_backend.Common.{
  ℕ, ◌-◌, ◌==◌, ltb, leb, if◌then◌else◌, not, ◌||◌, Bool, true, false, Option, none, some, List, [],
  ◌∷◌, ◌++◌, find, ◌+◌,
}
use ahjoor_backend.Entities.{Db, is_some, is_none}
use ahjoor_backend.EventListener.Payload.{
  Readings, RawEvent, ParsedEvent, Transaction, parse_diagnostic_events,
}
use ahjoor_backend.EventListener.Handlers.{handle_events}

-- The database, and what Redis holds: the last ledger (0 where there is none) and the hashes of the
-- transactions that were processed.
pub record Listener : Type 0 where
  pub db : Db
  pub last_ledger : ℕ
  pub processed : List ℕ

pub data Response : Type 0 where
  body : List Transaction → Response
  missing failed : Response

-- The paths of the contract and of the account, one after the other; none is an exception.
unfoldable pub fetch_transactions_since : Response → Response → Option (List Transaction)
fetch_transactions_since (body txs) account = some txs
fetch_transactions_since failed account = none
fetch_transactions_since missing (body txs) = some txs
fetch_transactions_since missing missing = some []
fetch_transactions_since missing failed = none

abbrev pub has_hash : ℕ → List ℕ → Bool
has_hash hash hashes = is_some (find (λ h. h == hash) hashes)

abbrev pub is_already_processed : ℕ → Listener → Bool
is_already_processed hash s = has_hash hash s.processed

abbrev pub mark_processed : ℕ → Listener → Listener
mark_processed hash s = record s { processed = hash ∷ s.processed }

abbrev pub set_last_processed_ledger : ℕ → Listener → Listener
set_last_processed_ledger ledger s = record s { last_ledger = ledger }

abbrev pub is_skipped : ℕ → Transaction → Bool
is_skipped last tx = tx.ledger == 0 || leb tx.ledger last

module _ (readings : Readings) (new_id now : ℕ → ℕ) where
  -- One round of the loop. Also a transaction whose events throw is marked as processed.
  unfoldable pub process_transaction : ℕ → Transaction → Listener → Listener
  process_transaction last tx s =
      if is_skipped last tx
      then s
      else if is_already_processed tx.hash s
      then set_last_processed_ledger tx.ledger s
      else if not tx.successful
      then set_last_processed_ledger tx.ledger (mark_processed tx.hash s)
      else set_last_processed_ledger tx.ledger (
          mark_processed tx.hash (record s {
            db = elim (parse_diagnostic_events readings tx) [
              | none ↦ s.db
              | some events ↦ handle_events readings (new_id tx.hash) (now tx.hash) tx events s.db
            ];
          }))

  unfoldable pub process_transactions : ℕ → List Transaction → Listener → Listener
  process_transactions last [] s = s
  process_transactions last (tx ∷ txs) s =
      process_transactions last txs (process_transaction last tx s)

  -- `pollNow`, with the contract's address; true where it throws.
  unfoldable pub poll_now : Option ℕ → Response → Response → Listener → Listener × Bool
  unfolding fetch_transactions_since process_transactions
  poll_now none contract account s = (s, false)
  poll_now (some address) contract account s = elim (fetch_transactions_since contract account) [
    | none ↦ (s, true)
    | some txs ↦ (process_transactions s.last_ledger txs s, false)
  ]

pub record Poller : Type 0 where
  pub listener : Listener
  pub polling_enabled : Bool
  pub last_run_at_ms : ℕ
  pub poll_interval_ms : ℕ

abbrev pub start_polling : Poller → Poller
start_polling p = record p { polling_enabled = true }

abbrev pub stop_polling : Poller → Poller
stop_polling p = record p { polling_enabled = false }

-- An exception of the poll is logged; the clock does not run backwards.
pub poll_tick : Readings → (ℕ → ℕ) → (ℕ → ℕ) → ℕ → Option ℕ → Response → Response → Poller → Poller
unfolding poll_now
poll_tick readings new_id now_of now address contract account p =
    if not p.polling_enabled
    then p
    else if ltb (now - p.last_run_at_ms) p.poll_interval_ms
    then p
    else record p {
      last_run_at_ms = now;
      listener = (poll_now readings new_id now_of address contract account p.listener).0;
    }
