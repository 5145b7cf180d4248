-- ===== src/TrustScore/Counts.antt =====
-- The components of a batch of users: what the loops over Maps collect is what the tables hold.
use ahjoor_backend.Common.{
  includes, add, add_all, ℕ, ◌+◌, ◌≡◌, refl, ap, ◌∙◌, arith, ◌==◌, if◌then◌else◌, ◌&&◌, Bool, true,
  false, Option, none, some, List, [], ◌∷◌, map, length, find, filter_by, count_by, lookup, set_key,
  lookup-set_key, IsMap, set_key-IsMap, lookup-absent, Bool-cases, Option-cases, inl, inr,
}
use ahjoor_backend.Finance.{Penalty, PenaltyStatus, Contribution, ContributionStatus}
use ahjoor_backend.Entities.{Membership}
use ahjoor_backend.Common.{◌⊎◌}
use ahjoor_backend.TrustScore.{TrustScoreComponents, is_of_user, groups_of}

abbrev pub no_components : TrustScoreComponents
no_components = record {
  on_time_contributions = 0;
  late_contributions = 0;
  missed_contributions = 0;
  penalties_incurred = 0;
  penalties_paid = 0;
  groups_completed_successfully = 0;
  total_groups_participated = 0;
}

abbrev pub Components : Type 0
Components = List (ℕ × TrustScoreComponents)

-- `const comp = map.get(userId); if (!comp) continue; …`.
pub change_entry : ℕ → (TrustScoreComponents → TrustScoreComponents) → Components → Components
change_entry uid f comps = elim (lookup uid comps) [
  | none ↦ comps
  | some c ↦ set_key uid (f c) comps
]

pub start_components : List ℕ → Components → Components
start_components [] comps = comps
start_components (u ∷ us) comps = start_components us (set_key u no_components comps)

abbrev pub is_late : ContributionStatus → Bool
is_late ContributionStatus.pending = true
is_late _ = false

abbrev pub is_missed : ContributionStatus → Bool
is_missed ContributionStatus.failed = true
is_missed _ = false

abbrev pub is_on_time : ContributionStatus → Bool
is_on_time ContributionStatus.confirmed = true
is_on_time _ = false

abbrev pub is_paid_penalty : PenaltyStatus → Bool
is_paid_penalty PenaltyStatus.paid = true
is_paid_penalty _ = false

abbrev pub one_if : Bool → ℕ
one_if b = if b then 1 else 0

abbrev pub with_contribution : ContributionStatus → TrustScoreComponents → TrustScoreComponents
with_contribution status c = record c {
  on_time_contributions = c.on_time_contributions + one_if (is_on_time status);
  late_contributions = c.late_contributions + one_if (is_late status);
  missed_contributions = c.missed_contributions + one_if (is_missed status);
}

abbrev pub with_penalty : PenaltyStatus → TrustScoreComponents → TrustScoreComponents
with_penalty status c = record c {
  penalties_incurred = c.penalties_incurred + 1;
  penalties_paid = c.penalties_paid + one_if (is_paid_penalty status);
}

pub add_contributions : List Contribution → Components → Components
unfolding change_entry
add_contributions [] comps = comps
add_contributions (c ∷ cs) comps =
    add_contributions cs (change_entry c.user_id (with_contribution c.status) comps)

pub add_penalties : List Penalty → Components → Components
unfolding change_entry
add_penalties [] comps = comps
add_penalties (p ∷ ps) comps =
    add_penalties ps (change_entry p.user_id (with_penalty p.status) comps)

abbrev pub set_in : Option (List ℕ) → List ℕ
set_in none = []
set_in (some s) = s

-- `membershipsByUser`: for each user a Set of groups.
pub memberships_by_user : List Membership → List (ℕ × List ℕ) → List (ℕ × List ℕ)
memberships_by_user [] sets = sets
memberships_by_user (m ∷ ms) sets =
    memberships_by_user ms
      (set_key m.user_id (add m.group_id (set_in (lookup m.user_id sets))) sets)

abbrev pub with_groups : List ℕ → List ℕ → TrustScoreComponents → TrustScoreComponents
with_groups completed groups c = record c {
  total_groups_participated = length groups;
  groups_completed_successfully = count_by (λ g. includes g completed) groups;
}

pub add_groups : List ℕ → List (ℕ × List ℕ) → Components → Components
unfolding change_entry
add_groups completed [] comps = comps
add_groups completed (e ∷ sets) comps =
    add_groups completed sets (change_entry e.0 (with_groups completed e.1) comps)

pub collect_components :
    List ℕ → List Contribution → List Penalty → List Membership → List ℕ → Components
unfolding start_components add_contributions add_penalties memberships_by_user add_groups
collect_components ids contributions penalties memberships completed =
    add_groups completed (memberships_by_user memberships [])
      (add_penalties penalties (add_contributions contributions (start_components ids [])))

abbrev pub contribution_of : ℕ → (ContributionStatus → Bool) → Contribution → Bool
contribution_of uid test c = c.user_id == uid && test c.status

-- The same figures, counted in the tables.
pub counted_components :
    ℕ → List Contribution → List Penalty → List Membership → List ℕ → TrustScoreComponents
counted_components uid contributions penalties memberships completed = record {
  on_time_contributions = count_by (contribution_of uid is_on_time) contributions;
  late_contributions = count_by (contribution_of uid is_late) contributions;
  missed_contributions = count_by (contribution_of uid is_missed) contributions;
  penalties_incurred = count_by (λ (p : Penalty). p.user_id == uid) penalties;
  penalties_paid =
      count_by (λ (p : Penalty). p.user_id == uid && is_paid_penalty p.status) penalties;
  groups_completed_successfully = count_by (λ g. includes g completed) (groups_of uid memberships);
  total_groups_participated = length (groups_of uid memberships);
}

lookup-change_entry :
    (u v : ℕ) (f : TrustScoreComponents → TrustScoreComponents) (comps : Components)
    {c : TrustScoreComponents}
    → lookup u comps ≡ some c
    → lookup u (change_entry v f comps) ≡ some (if v == u then f c else c)
unfolding change_entry
lookup-change_entry u v f comps {c} e = elim (Option-cases (lookup v comps)) [
  | inl missing ↦ ground (arith, missing)
  | inr (d, found) ↦ ground (arith, found, lookup-set_key u v (f d) comps)
]

lookup-start_components :
    (u : ℕ) (us : List ℕ) (comps : Components)
    → (includes u us ≡ true) ⊎ (lookup u comps ≡ some no_components)
    → lookup u (start_components us comps) ≡ some no_components
unfolding start_components find includes
lookup-start_components u [] comps (inl never) = absurd (ground arith)
lookup-start_components u [] comps (inr e) = e
lookup-start_components u (v ∷ us) comps h =
    lookup-start_components u us (set_key v no_components comps) (elim (Bool-cases (v == u)) [
      | inl same ↦ inr (ground (arith, lookup-set_key u v no_components comps))
      | inr other ↦ elim h [
        | inl within ↦ inl (ground arith)
        | inr e ↦ inr (ground (arith, lookup-set_key u v no_components comps))
      ]
    ])

lookup-add_contributions :
    (u : ℕ) (cs : List Contribution) (comps : Components) {c : TrustScoreComponents}
    → lookup u comps ≡ some c
    → lookup u (add_contributions cs comps)
      ≡ some (record c {
        on_time_contributions =
            c.on_time_contributions + count_by (contribution_of u is_on_time) cs;
        late_contributions = c.late_contributions + count_by (contribution_of u is_late) cs;
        missed_contributions = c.missed_contributions + count_by (contribution_of u is_missed) cs;
      })
unfolding add_contributions count_by
lookup-add_contributions u [] comps {c} e = e ∙ ap some (ground arith)
lookup-add_contributions u (x ∷ cs) comps {c} e =
    lookup-add_contributions u cs _
      (lookup-change_entry u x.user_id (with_contribution x.status) comps e)
    ∙ ap some (ground arith)

lookup-add_penalties :
    (u : ℕ) (ps : List Penalty) (comps : Components) {c : TrustScoreComponents}
    → lookup u comps ≡ some c
    → lookup u (add_penalties ps comps)
      ≡ some (record c {
        penalties_incurred = c.penalties_incurred + count_by (λ (p : Penalty). p.user_id == u) ps;
        penalties_paid =
            c.penalties_paid
            + count_by (λ (p : Penalty). p.user_id == u && is_paid_penalty p.status) ps;
      })
unfolding add_penalties count_by
lookup-add_penalties u [] comps {c} e = e ∙ ap some (ground arith)
lookup-add_penalties u (x ∷ ps) comps {c} e =
    lookup-add_penalties u ps _ (lookup-change_entry u x.user_id (with_penalty x.status) comps e)
    ∙ ap some (ground arith)

memberships_by_user-IsMap :
    (ms : List Membership) (sets : List (ℕ × List ℕ))
    → IsMap sets
    → IsMap (memberships_by_user ms sets)
unfolding memberships_by_user
memberships_by_user-IsMap [] sets h = h
memberships_by_user-IsMap (m ∷ ms) sets h =
    memberships_by_user-IsMap ms _ (set_key-IsMap m.user_id _ sets h)

-- The Set of a user holds the groups of the user's memberships.
lookup-memberships_by_user :
    (u : ℕ) (ms : List Membership) (sets : List (ℕ × List ℕ))
    → set_in (lookup u (memberships_by_user ms sets))
      ≡ add_all
          (map (λ (m : Membership). m.group_id) (filter_by (is_of_user u) ms))
          (set_in (lookup u sets))
unfolding memberships_by_user filter_by add_all
lookup-memberships_by_user u [] sets = refl
lookup-memberships_by_user u (m ∷ ms) sets =
    let next = add m.group_id (set_in (lookup m.user_id sets)) in
    let entry = lookup-set_key u m.user_id next sets in
    lookup-memberships_by_user u ms (set_key m.user_id next sets)
    ∙ elim (Bool-cases (m.user_id == u)) [
      | inl same ↦
          let e : lookup u (set_key m.user_id next sets)
              ≡ some (add m.group_id (set_in (lookup u sets))) =
            ground (arith, entry) in
          rw (same, e) refl
      | inr other ↦
          let e : lookup u (set_key m.user_id next sets) ≡ lookup u sets = ground (arith, entry) in
          rw (other, e) refl
    ]

abbrev pub after_groups : List ℕ → Option (List ℕ) → TrustScoreComponents → TrustScoreComponents
after_groups completed none c = c
after_groups completed (some groups) c = with_groups completed groups c

lookup-add_groups :
    (u : ℕ) (completed : List ℕ) (sets : List (ℕ × List ℕ)) (comps : Components)
    {c : TrustScoreComponents}
    → IsMap sets
    → lookup u comps ≡ some c
    → lookup u (add_groups completed sets comps) ≡ some (after_groups completed (lookup u sets) c)
unfolding add_groups lookup count_by
lookup-add_groups u completed [] comps h e = e
lookup-add_groups u completed (x ∷ sets) comps {c} h e =
    let rest : IsMap sets = λ j. ground (arith, h j) in
    let changed = lookup-change_entry u x.0 (with_groups completed x.1) comps e in
    lookup-add_groups u completed sets _ rest changed ∙ elim (Bool-cases (x.0 == u)) [
      | inl same ↦ rw (same, lookup-absent u sets (ground (arith, h u))) refl
      | inr other ↦ rw other refl
    ]

after_groups-set_in :
    (completed : List ℕ) (o : Option (List ℕ)) (c : TrustScoreComponents)
    → c.total_groups_participated ≡ 0
    → c.groups_completed_successfully ≡ 0
    → after_groups completed o c ≡ with_groups completed (set_in o) c
unfolding count_by
after_groups-set_in completed none c t g = ground arith
after_groups-set_in completed (some groups) c t g = refl

-- For every user of the batch the loops of recalculateBatch over Maps and Sets collect just the
-- figures that the tables hold: the contributions and penalties counted by status, and the groups
-- counted once each.
pub collect_components-counted :
    (u : ℕ) (ids : List ℕ) (contributions : List Contribution) (penalties : List Penalty)
    (memberships : List Membership) (completed : List ℕ)
    → includes u ids ≡ true
    → lookup u (collect_components ids contributions penalties memberships completed)
      ≡ some (counted_components u contributions penalties memberships completed)
unfolding count_by lookup collect_components counted_components groups_of
collect_components-counted u ids contributions penalties memberships completed within =
    let started = lookup-start_components u ids [] (inl within) in
    let contributed = lookup-add_contributions u contributions (start_components ids []) started in
    let fined = lookup-add_penalties u penalties _ contributed in
    let sets = memberships_by_user memberships [] in
    let held = lookup-memberships_by_user u memberships [] in
    lookup-add_groups u completed sets _
      (memberships_by_user-IsMap memberships [] (λ j. omega arith)) fined
    ∙ ap some (after_groups-set_in completed (lookup u sets) _ refl refl ∙ rw held (ground arith))
