-- ===== src/PoisonMessages/Tests.antt =====
-- Payloads with the keys a and b (97 and 98), and jobs that fail with them.
use ahjoor_backend.Common.{ℕ, ◌≡◌, refl, arith, true, [], ◌∷◌}
use ahjoor_backend.PoisonMessages.Payload.{
  Text, Value, scalar, object, no_fields, field, same_object, swapped, canonicalize,
  canonicalize_fields, insert_by_key, text_leb,
}
use ahjoor_backend.PoisonMessages.{Failure, Settings, compute_signature, record_failure}
use ahjoor_backend.PoisonMessages.Signatures.{compute_signature-same}
use ahjoor_backend.PoisonMessages.Tracking.{
  History, record_failures, repeated, record_failure-repeated,
}

abbrev first_code : Text → ℕ
first_code [] = 0
first_code (c ∷ cs) = c

abbrev last_code : Text → ℕ
last_code [] = 0
last_code (c ∷ []) = c
last_code (c ∷ d ∷ cs) = last_code (d ∷ cs)

abbrev one_two : Value
one_two = object (field (97 ∷ []) (scalar (49 ∷ [])) (field (98 ∷ []) (scalar (50 ∷ [])) no_fields))

abbrev two_one : Value
two_one = object (field (98 ∷ []) (scalar (50 ∷ [])) (field (97 ∷ []) (scalar (49 ∷ [])) no_fields))

compute_signature-same_example :
    compute_signature first_code (69 ∷ []) one_two ≡ compute_signature first_code (69 ∷ []) two_one
compute_signature-same_example = compute_signature-same first_code (69 ∷ []) (
    same_object _ _ (
      swapped (97 ∷ []) (98 ∷ []) (scalar (49 ∷ [])) (scalar (50 ∷ [])) no_fields
        (λ e. absurd (ground (arith, e)))))

-- The text of a value may look like a second key.
one_key_text :
    canonicalize one_two
    ≡ canonicalize (object (field (97 ∷ []) (scalar (49 ∷ 44 ∷ 98 ∷ 58 ∷ 50 ∷ [])) no_fields))
unfolding canonicalize canonicalize_fields insert_by_key text_leb
one_key_text = refl

abbrev three : Settings
three = record { poison_threshold = 3; signature_ttl_ms = 1800000; max_tracker_entries = 10 }

abbrev mail_fails : Failure
mail_fails = record { job_id = 1; error_class = 69 ∷ []; payload = scalar (49 ∷ []) }

abbrev sync_fails : Failure
sync_fails = record { job_id = 2; error_class = 69 ∷ []; payload = scalar (50 ∷ []) }

abbrev two_before : History
two_before = (30, sync_fails) ∷ (20, mail_fails) ∷ (10, mail_fails) ∷ []

record_failure-repeated_example :
    let result =
      (record_failure last_code three 40 mail_fails
        (record_failures last_code three two_before)).1 in
    (result.consecutive_failures ≡ 3) × (result.is_poison ≡ true)
unfolding repeated canonicalize
record_failure-repeated_example =
    record_failure-repeated last_code three 40 mail_fails two_before (omega arith)
