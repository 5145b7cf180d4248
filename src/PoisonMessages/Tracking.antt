-- ===== src/PoisonMessages/Tracking.antt =====
-- The tracker after any sequence of failures, of any jobs.
use ahjoor_backend.Common.{
  ℕ, suc, ◌+◌, ◌≤◌, ◌<◌, ◌≡◌, refl, ap, sym, subst, ◌∙◌, arith, ◌==◌, ltb, leb, if◌then◌else◌, not,
  ◌&&◌, Option, none, some, List, [], ◌∷◌, length, lookup, set_key, lookup-set_key, Bool-cases,
  Option-cases, inl, inr,
}
use ahjoor_backend.PoisonMessages.Payload.{Text}
use ahjoor_backend.PoisonMessages.{
  Failure, FailureSignature, Settings, Tracker, signature_of, first_failure, record_failure,
  enforce_tracker_limit,
}

-- The failures, with their times, the newest first.
abbrev pub History : Type 0
History = List (ℕ × Failure)

module _ (sha256 : Text → ℕ) (env : Settings) where
  -- The tracker that these failures leave.
  unfoldable pub record_failures : History → Tracker
  record_failures [] = []
  record_failures (e ∷ es) = (record_failure sha256 env e.0 e.1 (record_failures es)).0

  -- How many of the job's failures have this signature, from the newest to the first with another one.
  unfoldable pub repeated : ℕ → ℕ → History → ℕ
  repeated job_id signature [] = 0
  repeated job_id signature (e ∷ es) =
      let rest = repeated job_id signature es in
      if not (e.1.job_id == job_id)
      then rest
      else if signature_of sha256 e.1 == signature
      then suc rest
      else 0

  abbrev pub failures_with : ℕ → Option FailureSignature → ℕ
  failures_with signature none = 0
  failures_with signature (some x) = if x.signature == signature then x.consecutive_failures else 0

  length-set_key :
      (k : ℕ) (x : FailureSignature) (m : Tracker) → length (set_key k x m) ≤ length m + 1
  unfolding set_key
  length-set_key k x [] = omega arith
  length-set_key k x (e ∷ m) = ground (arith, length-set_key k x m)

  -- What the tracker holds of a job after a failure.
  abbrev pub next_signature : ℕ → Failure → Option FailureSignature → FailureSignature
  next_signature now f none = first_failure now (signature_of sha256 f) f.error_class
  next_signature now f (some x) =
      if x.signature == signature_of sha256 f
      then record x { last_seen_at = now; consecutive_failures = x.consecutive_failures + 1 }
      else first_failure now (signature_of sha256 f) f.error_class

  record_failure-tracker :
      (now : ℕ) (f : Failure) (t : Tracker)
      → length t < env.max_tracker_entries
      → (record_failure sha256 env now f t).0
        ≡ set_key f.job_id (next_signature now f (lookup f.job_id t)) t
  unfolding record_failure enforce_tracker_limit
  record_failure-tracker now f t small = elim (Option-cases (lookup f.job_id t)) [
    | inl new ↦
        ground (arith, new, length-set_key f.job_id (next_signature now f (lookup f.job_id t)) t)
    | inr (x, known) ↦ ground (arith, known)
  ]

  next_signature-positive :
      (now : ℕ) (f : Failure) (o : Option FailureSignature)
      → 0 < (next_signature now f o).consecutive_failures
  next_signature-positive now f none = omega arith
  next_signature-positive now f (some x) = ground arith

  failures_with-next_signature :
      (now signature : ℕ) (f : Failure) (o : Option FailureSignature)
      → failures_with signature (some (next_signature now f o))
        ≡ (if signature_of sha256 f == signature then suc (failures_with signature o) else 0)
  failures_with-next_signature now signature f none = ground arith
  failures_with-next_signature now signature f (some x) = ground arith

  record IsTracked (es : History) (t : Tracker) : Type 0 where
    small : length t ≤ length es
    positive : (j : ℕ) (x : FailureSignature) → lookup j t ≡ some x → 0 < x.consecutive_failures
    counted : (j signature : ℕ) → failures_with signature (lookup j t) ≡ repeated j signature es

  record_failures-IsTracked :
      (es : History) → length es ≤ env.max_tracker_entries → IsTracked es (record_failures es)
  unfolding record_failures repeated lookup
  record_failures-IsTracked [] few = record {
    small = omega arith;
    positive = λ j x e. ground (arith, e);
    counted = λ j signature. refl;
  }
  record_failures-IsTracked (e ∷ es) few =
      let before = record_failures-IsTracked es (omega arith) in
      let t = record_failures es in
      let next = next_signature e.0 e.1 (lookup e.1.job_id t) in
      let after = record_failure-tracker e.0 e.1 t (omega (arith, before.small)) in
      rw after (record {
        small = omega (arith, before.small, length-set_key e.1.job_id next t);
        positive = λ j x h.
            let at = sym (lookup-set_key j e.1.job_id next t) ∙ h in
            elim (Bool-cases (e.1.job_id == j)) [
              | inl own ↦
                  let same : next ≡ x = ground (arith, at, own) in
                  subst (λ (y : FailureSignature). 0 < y.consecutive_failures) same
                    (next_signature-positive e.0 e.1 (lookup e.1.job_id t))
              | inr other ↦ before.positive j x (ground (arith, at, other))
            ];
        counted = λ j signature.
            let at = ap (failures_with signature) (lookup-set_key j e.1.job_id next t) in
            let more = failures_with-next_signature e.0 signature e.1 (lookup e.1.job_id t) in
            let old = before.counted j signature in
            elim (Bool-cases (e.1.job_id == j)) [
              | inl own ↦
                  let same : e.1.job_id ≡ j = ground arith in
                  let here = ap (λ k. failures_with signature (lookup k t)) same in
                  ground (arith, at, more, old, own, here)
              | inr other ↦ ground (arith, at, old, other)
            ];
      })

  -- As long as there are no more failures than the tracker has place for, a failure is counted
  -- with the failures of its job that came before it with the same signature, back to the last
  -- one with another signature, whatever other jobs failed in between; the job is poison just
  -- when there is such a failure and the count has come to the threshold.
  pub record_failure-repeated :
      (now : ℕ) (f : Failure) (es : History)
      → length es < env.max_tracker_entries
      → let count = repeated f.job_id (signature_of sha256 f) es in
        let result = (record_failure sha256 env now f (record_failures es)).1 in
        (result.consecutive_failures ≡ suc count)
        × (result.is_poison ≡ ltb 0 count && leb env.poison_threshold (suc count))
  unfolding record_failure
  record_failure-repeated now f es few =
      let h = record_failures-IsTracked es (omega arith) in
      let counted = h.counted f.job_id (signature_of sha256 f) in
      elim (Option-cases (lookup f.job_id (record_failures es))) [
        | inl new ↦ ground (arith, new, counted)
        | inr (x, known) ↦ ground (arith, known, counted, h.positive f.job_id x known)
      ]
