-- ===== src/PoisonMessages/Signatures.antt =====
-- The signature of a failure against the payload of the job.
use ahjoor_backend.Common.{ℕ, ◌≡◌, ap, ◌∷◌, ◌++◌}
use ahjoor_backend.PoisonMessages.Payload.{Text, Value, SameValue, canonicalize-same}
use ahjoor_backend.PoisonMessages.{compute_signature}

-- Two payloads that differ in the order of the keys of their objects, at any depth, have the same
-- signature with the same error class, whatever the hash.
pub compute_signature-same :
    (sha256 : Text → ℕ) (error_class : Text) {v w : Value}
    → SameValue v w
    → compute_signature sha256 error_class v ≡ compute_signature sha256 error_class w
compute_signature-same sha256 error_class h =
    ap (λ t. sha256 (error_class ++ 58 ∷ t)) (canonicalize-same h)
