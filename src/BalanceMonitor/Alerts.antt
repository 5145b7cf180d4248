-- ===== src/BalanceMonitor/Alerts.antt =====
-- The alerts of a job: once while an account stays low, and what a congested network makes of them.
use ahjoor_backend.Common.{
  ℕ, ◌≡◌, refl, arith, if◌then◌else◌, not, ◌&&◌, Bool, true, Option, none, some, List, [], ◌∷◌,
  find, includes, add, add_all, includes-append, ==_refl, All,
}
use ahjoor_backend.Entities.{Group}
use ahjoor_backend.BalanceMonitor.{
  BalanceCheck, recovered, group_accounts, accounts_to_check, issuer_accounts, report_low,
  report_recovered, is_result_of, process_balance_results,
}

group_accounts-none : (groups : List Group) → group_accounts groups ≡ []
unfolding group_accounts
group_accounts-none [] = refl
group_accounts-none (g ∷ gs) = ground (arith, group_accounts-none gs)

-- Whatever groups there are, only the account of the issuer is checked.
pub accounts_to_check-issuer :
    (issuer : Option ℕ) (groups : List Group)
    → accounts_to_check issuer groups ≡ issuer_accounts issuer
unfolding accounts_to_check add_all includes
accounts_to_check-issuer none groups = rw (group_accounts-none groups) refl
accounts_to_check-issuer (some a) groups = rw (group_accounts-none groups) refl

-- The accounts that were low in the first loop, whatever was low before.
report_low-current :
    (congested : Bool) (p q : List ℕ) (rs : List BalanceCheck) (current : List ℕ)
    → (report_low congested p rs current).0 ≡ (report_low congested q rs current).0
unfolding report_low
report_low-current congested p q [] current = refl
report_low-current congested p q (r ∷ rs) current =
    report_low-current congested p q rs
      (if r.is_low && not congested then add r.account_id current else current)

includes-add : (x y : ℕ) (ys : List ℕ) → includes x ys ≡ true → includes x (add y ys) ≡ true
includes-add x y ys h = ground (arith, includes-append x ys (y ∷ []))

includes-added : (x : ℕ) (ys : List ℕ) → includes x (add x ys) ≡ true
unfolding includes
includes-added x ys = ground (arith, includes-append x ys (x ∷ []), ==_refl x)

report_low-grows :
    (x : ℕ) (congested : Bool) (p : List ℕ) (rs : List BalanceCheck) (current : List ℕ)
    → includes x current ≡ true
    → includes x (report_low congested p rs current).0 ≡ true
unfolding report_low
report_low-grows x congested p [] current h = h
report_low-grows x congested p (r ∷ rs) current h =
    report_low-grows x congested p rs
      (if r.is_low && not congested then add r.account_id current else current)
      (ground (arith, includes-add x r.account_id current))

-- An alert of the first loop needs an account that was not low before.
report_low-quiet :
    (congested : Bool) (p : List ℕ) (rs : List BalanceCheck) (current : List ℕ)
    → All
        (λ (r : BalanceCheck). (r.is_low && not congested) ≡ true → includes r.account_id p ≡ true)
        rs
    → (report_low congested p rs current).1 ≡ []
unfolding report_low
report_low-quiet congested p [] current h = refl
report_low-quiet congested p (r ∷ rs) current h = ground (
  arith,
  h.0,
  report_low-quiet congested p rs
      (if r.is_low && not congested then add r.account_id current else current) h.1,
)

report_low-covers :
    (congested : Bool) (p : List ℕ) (rs : List BalanceCheck) (current : List ℕ)
    → All
        (λ (r : BalanceCheck).
          (r.is_low && not congested) ≡ true
          → includes r.account_id (report_low congested p rs current).0 ≡ true)
        rs
unfolding report_low
report_low-covers congested p [] current = tt
report_low-covers congested p (r ∷ rs) current = (
  λ h.
      report_low-grows r.account_id congested p rs
        (if r.is_low && not congested then add r.account_id current else current)
        (ground (arith, includes-added r.account_id current)),
  report_low-covers congested p rs
      (if r.is_low && not congested then add r.account_id current else current),
)

report_recovered-quiet :
    (results : List BalanceCheck) (current previous : List ℕ)
    → All (λ a. includes a current ≡ true) previous
    → report_recovered results current previous ≡ []
unfolding report_recovered
report_recovered-quiet results current [] h = refl
report_recovered-quiet results current (a ∷ previous) h =
    ground (arith, h.0, report_recovered-quiet results current previous h.1)

All-includes :
    (xs ys : List ℕ)
    → ((x : ℕ) → includes x xs ≡ true → includes x ys ≡ true)
    → All (λ x. includes x ys ≡ true) xs
unfolding includes
All-includes [] ys h = tt
All-includes (x ∷ xs) ys h =
    (h x (ground (arith, ==_refl x)), All-includes xs ys (λ z k. h z (ground arith)))

-- While the results stay as they are, congested or not, no alert is sent again: a second job on
-- them sends nothing and keeps the accounts that are low.
process_balance_results_quiet :
    (congested : Bool) (results : List BalanceCheck) (previous : List ℕ)
    → let low_now = (process_balance_results congested results previous).0 in
      process_balance_results congested results low_now ≡ (low_now, [])
unfolding process_balance_results
process_balance_results_quiet congested results previous =
    let low_now = (report_low congested previous results []).0 in
    let same : (report_low congested low_now results []).0 ≡ low_now =
      report_low-current congested low_now previous results [] in
    let calm : (report_low congested low_now results []).1 ≡ [] =
      report_low-quiet congested low_now results []
        (report_low-covers congested previous results []) in
    let none_recovered =
      report_recovered-quiet results low_now low_now (All-includes low_now low_now (λ x h. h)) in
    rw (same, calm, none_recovered) refl

report_low-congested :
    (p : List ℕ) (rs : List BalanceCheck) (current : List ℕ)
    → report_low true p rs current ≡ (current, [])
unfolding report_low
report_low-congested p [] current = refl
report_low-congested p (r ∷ rs) current = ground (arith, report_low-congested p rs current)

-- On a congested network an account that was low, and is still low, is announced as recovered,
-- and is no longer remembered as low.
pub congested_recovery :
    (account : ℕ) (results : List BalanceCheck) {r : BalanceCheck}
    → find (is_result_of account) results ≡ some r
    → r.is_low ≡ true
    → process_balance_results true results (account ∷ []) ≡ ([], recovered r ∷ [])
unfolding process_balance_results report_recovered includes
congested_recovery account results {r} f is_low =
    rw (report_low-congested (account ∷ []) results []) (ground (arith, f))
