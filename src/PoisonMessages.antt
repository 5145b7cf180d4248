-- ===== src/PoisonMessages.antt =====
-- ahjoorxmr/src/bullmq/poison-message-detector.service.ts: jobs that fail in the same way again and again.
-- Texts are lists of code units, hashes and ids of jobs numbers, times milliseconds. SHA-256 is an argument.
pub mod Payload
pub mod Signatures
pub mod Tracking
mod Tests
use ahjoor_backend.Common.{
  ℕ, ◌+◌, ◌-◌, ltb, leb, ◌==◌, if◌then◌else◌, not, Bool, true, false, Option, none, some, List, [],
  ◌∷◌, ◌++◌, length, take, filter_by, lookup, set_key, delete_key,
}
use ahjoor_backend.PoisonMessages.Payload.{Text, Value, canonicalize}

pub record FailureSignature : Type 0 where
  pub signature : ℕ
  pub error_class : Text
  pub first_seen_at : ℕ
  pub last_seen_at : ℕ
  pub consecutive_failures : ℕ

pub record PoisonMessageDetectionResult : Type 0 where
  pub is_poison : Bool
  pub consecutive_failures : ℕ
  pub threshold : ℕ
  pub signature : ℕ
  pub error_class : Text

pub record Settings : Type 0 where
  pub poison_threshold : ℕ
  pub signature_ttl_ms : ℕ
  pub max_tracker_entries : ℕ

abbrev pub Tracker : Type 0
Tracker = List (ℕ × FailureSignature)

-- A failed job: its id, the number of 'unknown' where it has none, its payload and the error's class.
pub record Failure : Type 0 where
  pub job_id : ℕ
  pub error_class : Text
  pub payload : Value

-- The 58 is a colon.
abbrev pub compute_signature : (Text → ℕ) → Text → Value → ℕ
compute_signature sha256 error_class payload = sha256 (error_class ++ 58 ∷ canonicalize payload)

abbrev pub signature_of : (Text → ℕ) → Failure → ℕ
signature_of sha256 f = compute_signature sha256 f.error_class f.payload

-- `sort((a, b) => a.firstSeenAt - b.firstSeenAt)`, which is stable.
pub insert_by_age : ℕ × FailureSignature → Tracker → Tracker
insert_by_age e [] = e ∷ []
insert_by_age e (x ∷ xs) =
    let rest = insert_by_age e xs in
    if leb e.1.first_seen_at x.1.first_seen_at then e ∷ x ∷ xs else x ∷ rest

pub sort_by_age : Tracker → Tracker
unfolding insert_by_age
sort_by_age [] = []
sort_by_age (e ∷ es) = insert_by_age e (sort_by_age es)

pub delete_all : Tracker → Tracker → Tracker
delete_all [] tracker = tracker
delete_all (e ∷ es) tracker = delete_all es (delete_key e.0 tracker)

unfoldable pub enforce_tracker_limit : ℕ → Tracker → Tracker
unfolding sort_by_age delete_all
enforce_tracker_limit max_entries tracker =
    if leb (length tracker) max_entries
    then tracker
    else delete_all (take (length tracker - max_entries) (sort_by_age tracker)) tracker

abbrev pub first_failure : ℕ → ℕ → Text → FailureSignature
first_failure now signature error_class = record {
  signature = signature;
  error_class = error_class;
  first_seen_at = now;
  last_seen_at = now;
  consecutive_failures = 1;
}

abbrev pub detection : Settings → Bool → ℕ → ℕ → Text → PoisonMessageDetectionResult
detection env is_poison failures signature error_class = record {
  is_poison = is_poison;
  consecutive_failures = failures;
  threshold = env.poison_threshold;
  signature = signature;
  error_class = error_class;
}

unfoldable pub record_failure :
    (Text → ℕ) → Settings → ℕ → Failure → Tracker → Tracker × PoisonMessageDetectionResult
unfolding enforce_tracker_limit
record_failure sha256 env now f tracker =
    let signature = signature_of sha256 f in
    let first = first_failure now signature f.error_class in
    elim (lookup f.job_id tracker) [
      | none ↦ (
        enforce_tracker_limit env.max_tracker_entries (set_key f.job_id first tracker),
        detection env false 1 signature f.error_class,
      )
      | some existing ↦
          let failures = existing.consecutive_failures + 1 in
          if not (existing.signature == signature)
          then (set_key f.job_id first tracker, detection env false 1 signature f.error_class)
          else (
            set_key f.job_id
                (record existing { last_seen_at = now; consecutive_failures = failures }) tracker,
            detection env (leb env.poison_threshold failures) failures signature f.error_class,
          )
    ]

abbrev pub is_stale : Settings → ℕ → FailureSignature → Bool
is_stale env now entry = ltb env.signature_ttl_ms (now - entry.last_seen_at)

unfoldable pub get_poison_status : Settings → ℕ → ℕ → Tracker → Tracker × Option FailureSignature
get_poison_status env now job_id tracker = elim (lookup job_id tracker) [
  | none ↦ (tracker, none)
  | some entry ↦
      if is_stale env now entry then (delete_key job_id tracker, none) else (tracker, some entry)
]

abbrev pub cleanup_stale_entries : Settings → ℕ → Tracker → Tracker
cleanup_stale_entries env now tracker = filter_by (λ e. not (is_stale env now e.1)) tracker

unfoldable pub get_all_poison_candidates : Settings → ℕ → Tracker → Tracker × Tracker
get_all_poison_candidates env now tracker =
    let kept = cleanup_stale_entries env now tracker in
    (kept, filter_by (λ e. leb env.poison_threshold e.1.consecutive_failures) kept)

abbrev pub clear_job : ℕ → Tracker → Tracker
clear_job job_id tracker = delete_key job_id tracker

abbrev pub reset : Tracker → Tracker
reset tracker = []
