-- ===== src/EventListener/Tests.antt =====
-- The events of a transaction that are applied, once, and those that are lost.
use Prim.Native.String.{String}
use ahjoor_backend.Common.{
  ℕ, ◌≡◌, refl, arith, true, false, none, some, List, [], ◌∷◌, ◌++◌, length, if◌then◌else◌, ◌==◌,
  find,
}
use ahjoor_backend.Fixtures.{running}
use ahjoor_backend.EventListener.Payload.{
  Value, object, RawEvent, Transaction, Readings, read_string, field, parse_diagnostic_events,
}
use ahjoor_backend.EventListener.Handlers.{record_received, handle_events}
use ahjoor_backend.EventListener.{Listener, body, missing, process_transaction, poll_now}
use ahjoor_backend.EventListener.Delivery.{poll_now_twice, same_ledger_lost}

abbrev words : Value → String
words (Value.text t) = if t == 500 then "contributionreceived" else "roundcompleted"
words v = ""

-- Ada's payment for round 1, in a transaction of its own.
abbrev payment : RawEvent
payment = record {
  topics = Value.text 500 ∷ [];
  payload = object (
      ("group_id", Value.text 1)
      ∷ ("user_id", Value.text 21)
      ∷ ("wallet_address", Value.text 11)
      ∷ ("amount", Value.text 50)
      ∷ []);
}

abbrev texts : Readings
texts = record {
  lower_text = words;
  has_text = λ t. true;
  to_number = λ t. none;
  diagnostic_events = λ meta. some (some payment ∷ []);
  xlm = 7;
  one = 1;
}

abbrev paid_in : ℕ → ℕ → Transaction
paid_in hash ledger = record {
  hash = hash;
  successful = true;
  ledger = ledger;
  result_meta_xdr = some 3;
  created_at = none;
}

abbrev started : Listener
started = record { db = running; last_ledger = 0; processed = [] }

abbrev poll : List Transaction → Listener → Listener
unfolding poll_now
poll txs s = (poll_now texts (λ h. h) (λ h. 9000) (some 99) (body txs) missing s).0

poll_now_twice_example :
    let once = poll (paid_in 71 5 ∷ []) started in (poll (paid_in 71 5 ∷ []) once).db ≡ once.db
unfolding poll
poll_now_twice_example =
    poll_now_twice texts (λ h. h) (λ h. 9000) (some 99) (body (paid_in 71 5 ∷ [])) missing started

same_ledger_lost_example :
    let once = poll ([] ++ paid_in 71 5 ∷ []) started in
    poll_now texts (λ h. h) (λ h. 9000) (some 99) (body (paid_in 72 5 ∷ [])) missing once
    ≡ (once, false)
unfolding poll
same_ledger_lost_example =
    same_ledger_lost texts (λ h. h) (λ h. 9000) 99 [] (paid_in 71 5) (paid_in 72 5) started
      (omega arith) (omega arith) refl

-- The payment is recorded.
payment_recorded : length (poll (paid_in 71 5 ∷ []) started).db.contributions ≡ 1
unfolding poll poll_now process_transaction find handle_events parse_diagnostic_events read_string
    field record_received
payment_recorded = refl
