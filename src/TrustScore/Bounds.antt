-- ===== src/TrustScore/Bounds.antt =====
-- Bounds of a score, and what moves it.
use ahjoor_backend.Common.{
  ℕ, ◌+◌, ◌*◌, ◌/◌, ◌≤◌, ◌<◌, ◌≡◌, arith, ◌==◌, true, List, [], length, Bool-cases, inl, inr,
}
use native.Mathlib.Nat.{div-lt_iff_lt-mul, le-div_iff_mul-le}
use ahjoor_backend.Entities.{Membership}
use ahjoor_backend.TrustScore.{
  TrustScoreComponents, round_quotient, compute_trust_score, detect_repeated_cohort, groups_of,
  shared_groups, max_count,
}

-- A share of at most `w`.
round_quotient-le : (a b w : ℕ) → a ≤ w * b → round_quotient a b ≤ w
unfolding round_quotient
round_quotient-le a b w h = elim (Bool-cases (b == 0)) [
  | inl zero_b ↦ ground arith
  | inr some_b ↦
      let below : 2 * a + b < (w + 1) * (2 * b) =
        let room : (w + 1) * (2 * b) ≡ 2 * (w * b) + 2 * b = grind arith in ground arith in
      let less : (2 * a + b) / (2 * b) < w + 1 =
        (div-lt_iff_lt-mul {k = 2 * b} {x = 2 * a + b} {y = w + 1} (ground arith)).1 below in
      ground arith
]

-- A share of at least `w`.
le-round_quotient : (a b w : ℕ) → 0 < b → w * b ≤ a → w ≤ round_quotient a b
unfolding round_quotient
le-round_quotient a b w pos_b h =
    let enough : w * (2 * b) ≤ 2 * a + b =
      let twice : w * (2 * b) ≡ 2 * (w * b) = grind arith in ground arith in
    let least : w ≤ (2 * a + b) / (2 * b) =
      (le-div_iff_mul-le {k = 2 * b} {x = w} {y = 2 * a + b} (ground arith)).1 enough in
    ground arith

-- No score is above 80 points, whatever the history: 60 for the contributions and 20 for the groups.
pub compute_trust_score-le : (c : TrustScoreComponents) → compute_trust_score c ≤ 80 * 100
unfolding compute_trust_score
compute_trust_score-le c =
    let total = c.on_time_contributions + c.late_contributions + c.missed_contributions in
    ground (arith, round_quotient-le (c.on_time_contributions * 60 * 100) total 6000)

-- A review flag needs three shared groups, and is given only with a confidence of three quarters at least.
pub detect_repeated_cohort-flagged :
    (uid : ℕ) (ms : List Membership)
    → (detect_repeated_cohort uid ms).flagged ≡ true
    → (3 ≤ max_count (shared_groups uid (groups_of uid ms) ms []))
      × (7500 ≤ (detect_repeated_cohort uid ms).confidence)
      × ((detect_repeated_cohort uid ms).confidence ≤ 10000)
unfolding detect_repeated_cohort
detect_repeated_cohort-flagged uid ms h =
    let size = length (groups_of uid ms) in
    let most = max_count (shared_groups uid (groups_of uid ms) ms []) in
    (ground arith, ground (arith, le-round_quotient (most * 10000) size 7500), ground arith)
