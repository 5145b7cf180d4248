-- ===== src/BalanceMonitor.antt =====
-- ahjoorxmr/src/stellar/balance-monitor.service.ts: the job that reads the balances of accounts through the
-- circuit breaker, and its alerts. Balances and the minimum are in stroops, times in milliseconds.
pub mod Alerts
pub mod DoubleCount
mod Tests
use ahjoor_backend.Common.{
  ℕ, ◌-◌, ltb, if◌then◌else◌, not, ◌&&◌, Bool, true, false, Option, none, some, List, [], ◌∷◌, ◌++◌,
  filter_by, find, ◌==◌, includes, add, distinct, Result, ok, err,
}
use ahjoor_backend.Entities.{Group}
use ahjoor_backend.Circuit.{BreakerConfig, Breaker, admit_call, on_success, on_failure, execute}

pub record BalanceCheck : Type 0 where
  pub account_id : ℕ
  pub current_balance : ℕ
  pub minimum_required : ℕ
  pub is_low : Bool
  pub timestamp : ℕ

pub data Alert : Type 0 where
  low recovered : BalanceCheck → Alert

-- `deletedAt: LessThan(new Date(0))` on rows that were not deleted: NULL is not less than a date.
abbrev pub is_monitored : Group → Bool
is_monitored g = elim g.deleted_at [ none ↦ false | some t ↦ ltb t 0 ]

pub group_accounts : List Group → List ℕ
group_accounts [] = []
group_accounts (g ∷ gs) =
    let rest = group_accounts gs in
    if is_monitored g then elim g.contract_address [ none ↦ rest | some a ↦ a ∷ rest ] else rest

abbrev pub issuer_accounts : Option ℕ → List ℕ
issuer_accounts none = []
issuer_accounts (some a) = a ∷ []

pub accounts_to_check : Option ℕ → List Group → List ℕ
unfolding group_accounts
accounts_to_check issuer groups = distinct (issuer_accounts issuer ++ group_accounts groups)

-- The times of one check: the outer call starts, the inner one starts and ends, the outer one ends.
pub record Times : Type 0 where
  pub outer_start : ℕ
  pub inner_start : ℕ
  pub inner_end : ℕ
  pub outer_end : ℕ

module _ (cfg : BreakerConfig) (minimum : ℕ) where
  -- `loadAccount` gives the native balance, 0 where there is none; none where it throws. The call runs in
  -- the breaker, within a function that runs in the breaker.
  pub check_account_balance : Times → ℕ → Option ℕ → Breaker → Breaker × Option BalanceCheck
  check_account_balance t account balance b =
      let outer = admit_call cfg t.outer_start b in
      let inner = execute cfg t.inner_start t.inner_end balance outer.0 in
      let failed = on_failure cfg t.outer_end inner.0 in
      elim outer.1 [
        | err e ↦ (outer.0, none)
        | ok _ ↦ elim inner.1 [
          | err e ↦ (failed, none)
          | ok none ↦ (failed, none)
          | ok (some amount) ↦ (
            on_success cfg t.outer_end (t.outer_end - t.outer_start) inner.0,
            some (record {
              account_id = account;
              current_balance = amount;
              minimum_required = minimum;
              is_low = ltb amount minimum;
              timestamp = t.inner_end;
            }),
          )
        ]
      ]

  -- The accounts one after the other; a failed check is logged.
  pub check_accounts : (ℕ → Times) → (ℕ → Option ℕ) → List ℕ → Breaker → Breaker × List BalanceCheck
  unfolding check_account_balance
  check_accounts times balances [] b = (b, [])
  check_accounts times balances (a ∷ accounts) b =
      let r = check_account_balance (times a) a (balances a) b in
      let rest = check_accounts times balances accounts r.0 in
      (rest.0, elim r.1 [ none ↦ rest.1 | some c ↦ c ∷ rest.1 ])

-- `processBalanceResults`: its first loop, with the accounts that were low before.
pub report_low : Bool → List ℕ → List BalanceCheck → List ℕ → List ℕ × List Alert
report_low congested previous [] current = (current, [])
report_low congested previous (r ∷ rs) current =
    let alerts = r.is_low && not congested in
    let rest =
      report_low congested previous rs (if alerts then add r.account_id current else current) in
    (rest.0, if alerts && not (includes r.account_id previous) then low r ∷ rest.1 else rest.1)

abbrev pub is_result_of : ℕ → BalanceCheck → Bool
is_result_of account r = r.account_id == account

-- The second loop.
pub report_recovered : List BalanceCheck → List ℕ → List ℕ → List Alert
report_recovered results current [] = []
report_recovered results current (a ∷ previous) =
    let rest = report_recovered results current previous in
    if includes a current
    then rest
    else elim (find (is_result_of a) results) [ none ↦ rest | some r ↦ recovered r ∷ rest ]

-- The accounts that are low now, and the alerts in their order.
pub process_balance_results : Bool → List BalanceCheck → List ℕ → List ℕ × List Alert
unfolding report_low report_recovered
process_balance_results congested results previous =
    let r = report_low congested previous results [] in
    (r.0, r.1 ++ report_recovered results r.0 previous)
