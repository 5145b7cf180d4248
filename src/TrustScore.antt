-- ===== src/TrustScore.antt =====
-- ahjoorxmr/src/trust-score/trust-score.service.ts: the trust score of a user, computed in batches. A score
-- is in hundredths and a confidence in ten-thousandths, in exact arithmetic, with a tie rounded up.
pub mod Counts
pub mod Bounds
pub mod Recalculation
pub mod Access
mod Tests
use ahjoor_backend.Common.{
  ℕ, zero, suc, ◌+◌, ◌-◌, ◌*◌, ◌/◌, ◌==◌, ltb, leb, min, max, if◌then◌else◌, not, ◌&&◌, ◌||◌, Bool,
  true, false, Option, none, some, List, [], ◌∷◌, ◌++◌, map, length, find, filter_by, count_by,
  lookup, set_key, includes, add_all, distinct, Result, ok, err, HttpError, forbidden, not_found,
}
use ahjoor_backend.Finance.{Penalty, PenaltyStatus, Contribution, ContributionStatus}
use ahjoor_backend.Entities.{Group, GroupStatus, Membership, Db, is_some, is_none}

pub record TrustScoreComponents : Type 0 where
  pub on_time_contributions : ℕ
  pub late_contributions : ℕ
  pub missed_contributions : ℕ
  pub penalties_incurred : ℕ
  pub penalties_paid : ℕ
  pub groups_completed_successfully : ℕ
  pub total_groups_participated : ℕ

pub record AntiGamingResult : Type 0 where
  pub confidence : ℕ
  pub flagged : Bool

pub record MemberTrustScore : Type 0 where
  pub score : ℕ
  pub anti_gaming : AntiGamingResult
  pub components : TrustScoreComponents
  pub last_calculated_at : ℕ

-- TRUST_SCORE_FORMULA.
abbrev pub on_time_weight : ℕ
on_time_weight = 60

abbrev pub penalty_deduction : ℕ
penalty_deduction = 5

abbrev pub completion_bonus_per_group : ℕ
completion_bonus_per_group = 4

abbrev pub completion_bonus_cap : ℕ
completion_bonus_cap = 20

abbrev pub score_max : ℕ
score_max = 100

-- a / b, rounded to the nearest whole number; 0 where b is 0.
pub round_quotient : ℕ → ℕ → ℕ
round_quotient a b = if b == 0 then 0 else (2 * a + b) / (2 * b)

-- `max(0, x - y)` is the subtraction that stops at 0.
pub compute_trust_score : TrustScoreComponents → ℕ
unfolding round_quotient
compute_trust_score c =
    let total = c.on_time_contributions + c.late_contributions + c.missed_contributions in
    let base = round_quotient (c.on_time_contributions * on_time_weight * 100) total in
    let penalty_adj = (c.penalties_incurred - c.penalties_paid) * penalty_deduction in
    let bonus =
      min (c.groups_completed_successfully * completion_bonus_per_group) completion_bonus_cap in
    min (score_max * 100) (base + bonus * 100 - penalty_adj * 100)

abbrev pub is_of_user : ℕ → Membership → Bool
is_of_user uid m = m.user_id == uid

pub groups_of : ℕ → List Membership → List ℕ
groups_of uid ms = distinct (map (λ (m : Membership). m.group_id) (filter_by (is_of_user uid) ms))

abbrev pub count_in : Option ℕ → ℕ
count_in none = 0
count_in (some n) = n

-- For each other member of the user's groups, how many of these the two share.
pub shared_groups : ℕ → List ℕ → List Membership → List (ℕ × ℕ) → List (ℕ × ℕ)
shared_groups uid groups [] counts = counts
shared_groups uid groups (m ∷ ms) counts = shared_groups uid groups ms (
    if m.user_id == uid || not (includes m.group_id groups)
    then counts
    else set_key m.user_id (count_in (lookup m.user_id counts) + 1) counts)

pub max_count : List (ℕ × ℕ) → ℕ
max_count [] = 0
max_count (e ∷ es) = max e.1 (max_count es)

pub detect_repeated_cohort : ℕ → List Membership → AntiGamingResult
unfolding groups_of shared_groups max_count round_quotient
detect_repeated_cohort uid ms =
    let groups = groups_of uid ms in
    let most = max_count (shared_groups uid groups ms []) in
    if ltb (length groups) 3 then record { confidence = 0; flagged = false } else record {
      confidence = min 10000 (round_quotient (most * 10000) (length groups));
      flagged = leb 3 most && leb (75 * length groups) (100 * min most (length groups));
    }
