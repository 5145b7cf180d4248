-- ===== src/EventListener/Payload.antt =====
-- What is read from the diagnostic events of a transaction: the name of an event and its fields. What
-- the Stellar SDK decodes is an argument; texts but the keys are numbers.
use Prim.Native.String.{String}
use package.text.Mathlib.Text.{◌==◌ as str_eq}
use ahjoor_backend.Common.{ℕ, if◌then◌else◌, Bool, Option, none, some, List, [], ◌∷◌}

-- A value of a payload; a field that is null is not listed.
pub data Value : Type 0 where
  text number : ℕ → Value
  other : Value

-- What `scValToNative` makes of the data of an event.
pub data Native : Type 0 where
  object : List (String × Value) → Native
  scalar : Value → Native
  undefined : Native

pub record RawEvent : Type 0 where
  pub topics : List Value
  pub payload : Native

pub data EventName : Type 0 where
  contribution_received round_completed : EventName

pub record ParsedEvent : Type 0 where
  pub name : EventName
  pub payload : List (String × Value)

pub record Transaction : Type 0 where
  pub hash : ℕ
  pub successful : Bool
  pub ledger : ℕ
  pub result_meta_xdr : Option ℕ
  pub created_at : Option ℕ

-- `String(v).toLowerCase()`; `v.trim().length > 0`; `Number(v)`, none where it is not finite; the events
-- of a transaction's metadata, none where they cannot be read, with none for an event that cannot; and
-- the texts 'XLM' and '1' of the columns' defaults.
pub record Readings : Type 0 where
  pub lower_text : Value → String
  pub has_text : ℕ → Bool
  pub to_number : ℕ → Option ℕ
  pub diagnostic_events : ℕ → Option (List (Option RawEvent))
  pub xlm : ℕ
  pub one : ℕ

unfoldable pub field : String → List (String × Value) → Option Value
field k [] = none
field k (e ∷ fields) = if str_eq e.0 k then some e.1 else field k fields

-- The first key whose value is a text that is not blank.
unfoldable pub read_string : Readings → List (String × Value) → List String → Option ℕ
unfolding field
read_string readings payload [] = none
read_string readings payload (k ∷ ks) =
    let rest = read_string readings payload ks in
    elim (field k payload) [
      | some (text t) ↦ if readings.has_text t then some t else rest
      | some (number n) ↦ rest
      | some other ↦ rest
      | none ↦ rest
    ]

unfoldable pub read_number : Readings → List (String × Value) → List String → Option ℕ
unfolding field
read_number readings payload [] = none
read_number readings payload (k ∷ ks) =
    let rest = read_number readings payload ks in
    elim (field k payload) [
      | some (number n) ↦ some n
      | some (text t) ↦
          if readings.has_text t
          then elim (readings.to_number t) [ some n ↦ some n | none ↦ rest ]
          else rest
      | some other ↦ rest
      | none ↦ rest
    ]

unfoldable pub name_of : String → Option EventName
name_of value =
    if str_eq value "contributionreceived"
    then some contribution_received
    else if str_eq value "roundcompleted"
    then some round_completed
    else none

unfoldable pub name_in_topics : Readings → List Value → Option EventName
unfolding name_of
name_in_topics readings [] = none
name_in_topics readings (t ∷ ts) =
    let rest = name_in_topics readings ts in
    elim (name_of (readings.lower_text t)) [ some name ↦ some name | none ↦ rest ]

-- The first key that has a value.
unfoldable pub first_field : List (String × Value) → List String → Option Value
unfolding field
first_field payload [] = none
first_field payload (k ∷ ks) =
    let rest = first_field payload ks in elim (field k payload) [ some v ↦ some v | none ↦ rest ]

unfoldable pub extract_event_name : Readings → RawEvent → Option EventName
unfolding name_in_topics first_field
extract_event_name readings event = elim (name_in_topics readings event.topics) [
  | some name ↦ some name
  | none ↦ elim event.payload [
    | object fields ↦ elim (first_field fields ("eventName" ∷ "event" ∷ "type" ∷ [])) [
      | some v ↦ name_of (readings.lower_text v)
      | none ↦ none
    ]
    | scalar v ↦ none
    | undefined ↦ none
  ]
]

abbrev pub payload_of : Native → List (String × Value)
payload_of (object fields) = fields
payload_of (scalar v) = ("value", v) ∷ []
payload_of undefined = []

unfoldable pub normalize_contract_event : Readings → RawEvent → Option ParsedEvent
unfolding extract_event_name
normalize_contract_event readings event = elim (extract_event_name readings event) [
  | none ↦ none
  | some name ↦ some (record { name = name; payload = payload_of event.payload })
]

unfoldable pub normalize_all : Readings → List (Option RawEvent) → List ParsedEvent
unfolding normalize_contract_event
normalize_all readings [] = []
normalize_all readings (none ∷ es) = normalize_all readings es
normalize_all readings (some e ∷ es) =
    let rest = normalize_all readings es in
    elim (normalize_contract_event readings e) [ none ↦ rest | some p ↦ p ∷ rest ]

-- None where the metadata cannot be read, which throws.
unfoldable pub parse_diagnostic_events : Readings → Transaction → Option (List ParsedEvent)
unfolding normalize_all
parse_diagnostic_events readings tx = elim tx.result_meta_xdr [
  | none ↦ some []
  | some meta ↦ elim (readings.diagnostic_events meta) [
    | none ↦ none
    | some events ↦ some (normalize_all readings events)
  ]
]
