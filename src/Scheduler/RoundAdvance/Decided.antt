-- ===== src/Scheduler/RoundAdvance/Decided.antt =====
-- What one run of the job makes of a group, beside all the other groups.
use ahjoor_backend.Common.{
  ℕ, ◌+◌, ◌≤◌, ◌≡◌, refl, ap, sym, ◌∙◌, subst, arith, ◌==◌, ltb, if◌then◌else◌, not, ◌&&◌, Bool,
  true, false, some, List, [], ◌∷◌, find, filter_by, count_by, count_by-update, count_by-filter,
  count_by-filter-le, length-filter, find-save, find-update_other, find-holds, save-keys,
  All-unique, All, All-filter, Bool-cases, inl, inr, length,
}
use ahjoor_backend.Entities.{Group, GroupStatus, Membership, Db, find_group, is_group, HasGroupKeys}
use ahjoor_backend.Rounds.{is_current, clear_paid, next_round}
use ahjoor_backend.Scheduler.Statuses.LastRound.{has_group, IsOnly, filter-has_group}
use ahjoor_backend.Scheduler.RoundAdvance.{
  RoundAdvanceResult, is_deadline_passed, is_unpaid, advance_group_round, send_payment_reminders,
  is_active_group, process_group, process_groups, process_deadlined_groups,
}

-- The active members of a group who have not paid its round.
abbrev pub owes : ℕ → Membership → Bool
owes gid m = is_current gid m && is_unpaid m

-- The group after the job: late or not, with a number of members who owe, and where notifyBatch throws.
abbrev pub decided : Bool → ℕ → Bool → Group → Group
decided late owing fails g =
    if not late
    then g
    else if not (owing == 0)
    then g
    else if ltb g.total_rounds (g.current_round + 1)
    then record (next_round g) { status = GroupStatus.completed }
    else if fails
    then g
    else next_round g

owing-length :
    (gid : ℕ) (ms : List Membership)
    → length (filter_by is_unpaid (filter_by (is_current gid) ms)) ≡ count_by (owes gid) ms
owing-length gid ms =
    length-filter is_unpaid (filter_by (is_current gid) ms)
    ∙ count_by-filter is_unpaid (is_current gid) ms

module _ (updated_at : ℕ → ℕ) (notify_fails : ℕ → Bool) (now grace_hours : ℕ) where
  abbrev after_group : Group → Db × RoundAdvanceResult → Db × RoundAdvanceResult
  after_group = process_group updated_at notify_fails now grace_hours

  abbrev after_groups : List Group → Db × RoundAdvanceResult → Db × RoundAdvanceResult
  after_groups = process_groups updated_at notify_fails now grace_hours

  -- The group as the job decides on it, from the members in a database.
  abbrev pub decided_in : Db → Group → Group
  decided_in db g =
      decided (is_deadline_passed (updated_at g.id) now grace_hours g)
        (count_by (owes g.id) db.memberships) (notify_fails g.id) g

  process_group-keys :
      (h : Group) (db : Db) (r : RoundAdvanceResult)
      → HasGroupKeys db
      → HasGroupKeys (after_group h (db, r)).0
  unfolding process_group advance_group_round send_payment_reminders
  process_group-keys h db r keys i = ground (
    arith,
    keys i,
    save-keys (λ (g : Group). g.id) db.groups
        (record (next_round h) { status = GroupStatus.completed }) keys i,
    save-keys (λ (g : Group). g.id) db.groups (next_round h) keys i,
  )

  process_group-other :
      (gid : ℕ) (h : Group) (db : Db) (r : RoundAdvanceResult)
      → h.id == gid ≡ false
      → (find_group gid (after_group h (db, r)).0.groups ≡ find_group gid db.groups)
        × (count_by (owes gid) (after_group h (db, r)).0.memberships
            ≡ count_by (owes gid) db.memberships)
  unfolding process_group advance_group_round send_payment_reminders
  process_group-other gid h db r other = (
    ground (
      arith,
      find-update_other (is_group gid) (λ (g : Group). g.id == h.id)
          (λ g. record (next_round h) { status = GroupStatus.completed }) db.groups
          (λ x e. ground (arith, other, e)),
      find-update_other (is_group gid) (λ (g : Group). g.id == h.id) (λ g. next_round h) db.groups
          (λ x e. ground (arith, other, e)),
    ),
    ground (
      arith,
      count_by-update (owes gid) (is_current h.id) clear_paid db.memberships
          (λ m e. ground (arith, other, e)),
    ),
  )

  process_group-decided :
      (g : Group) (db : Db) (r : RoundAdvanceResult)
      → HasGroupKeys db
      → find_group g.id db.groups ≡ some g
      → find_group g.id (after_group g (db, r)).0.groups ≡ some (decided_in db g)
  unfolding process_group advance_group_round send_payment_reminders
  process_group-decided g db r keys f =
      let is = find-holds (is_group g.id) db.groups f in
      ground (
        arith,
        f,
        owing-length g.id db.memberships,
        find-save (λ (x : Group). x.id) (is_group g.id) db.groups
            (record (next_round g) { status = GroupStatus.completed }) f refl is keys,
        find-save (λ (x : Group). x.id) (is_group g.id) db.groups (next_round g) f refl is keys,
      )

  process_groups-absent :
      (gid : ℕ) (gs : List Group) (db : Db) (r : RoundAdvanceResult)
      → count_by (λ (h : Group). h.id == gid) gs ≡ 0
      → find_group gid (after_groups gs (db, r)).0.groups ≡ find_group gid db.groups
  unfolding process_groups count_by
  process_groups-absent gid [] db r none_left = refl
  process_groups-absent gid (h ∷ gs) db r none_left =
      let next = after_group h (db, r) in
      process_groups-absent gid gs next.0 next.1 (ground (arith, none_left))
      ∙ (process_group-other gid h db r (ground (arith, none_left))).0

  process_groups-decided :
      (g : Group) (gs : List Group) (db : Db) (r : RoundAdvanceResult)
      → HasGroupKeys db
      → has_group g.id gs ≡ true
      → count_by (λ (h : Group). h.id == g.id) gs ≤ 1
      → All (IsOnly g.id g) gs
      → find_group g.id db.groups ≡ some g
      → find_group g.id (after_groups gs (db, r)).0.groups ≡ some (decided_in db g)
  unfolding process_groups count_by find
  process_groups-decided g [] db r keys has once only f = absurd (ground arith)
  process_groups-decided g (h ∷ gs) db r keys has once only f = elim (Bool-cases (h.id == g.id)) [
    | inl hit ↦
        let same : h ≡ g = only.0 (ground arith) in
        let next = after_group h (db, r) in
        process_groups-absent g.id gs next.0 next.1 (ground (arith, once, hit))
        ∙ subst
            (λ (x : Group).
              find_group g.id (after_group x (db, r)).0.groups ≡ some (decided_in db g))
            (sym same) (process_group-decided g db r keys f)
    | inr miss ↦
        let next = after_group h (db, r) in
        let kept = process_group-other g.id h db r miss in
        process_groups-decided g gs next.0 next.1 (process_group-keys h db r keys)
          (ground (arith, has, miss)) (ground (arith, once, miss)) only.1 (kept.0 ∙ f)
        ∙ ap
            (λ n. some (
              decided (is_deadline_passed (updated_at g.id) now grace_hours g) n (notify_fails g.id)
                g))
            kept.1
  ]

  -- One run of the job that advances rounds stores each active group by that group alone,
  -- whatever the others are: a group whose deadline has not passed, or that has an active member
  -- who has not paid, stays as it is; any other one is COMPLETED behind its last round, stays in
  -- its round where notifyBatch throws, and is in its next round otherwise. Group ids are unique.
  pub process_deadlined_groups-decided :
      (gid : ℕ) (db : Db) {g : Group}
      → HasGroupKeys db
      → find_group gid db.groups ≡ some g
      → is_active_group g ≡ true
      → find_group gid
          (process_deadlined_groups updated_at notify_fails now grace_hours db).0.groups
        ≡ some (decided_in db g)
  unfolding process_deadlined_groups
  process_deadlined_groups-decided gid db {g} keys f active =
      let only = All-unique (λ (x : Group). x.id) (is_group gid) db.groups f keys in
      let id : g.id ≡ gid = ground (arith, find-holds (is_group gid) db.groups f) in
      let own : find_group g.id db.groups ≡ some g = ap (λ i. find_group i db.groups) id ∙ f in
      let once = count_by-filter-le (λ (h : Group). h.id == g.id) is_active_group db.groups in
      subst
        (λ i.
          find_group i
            (process_deadlined_groups updated_at notify_fails now grace_hours db).0.groups
          ≡ some (decided_in db g))
        id
        (process_groups-decided g (filter_by is_active_group db.groups) db
          (record { advanced = 0; reminded = 0; errors = 0 }) keys
          (filter-has_group g.id is_active_group db.groups own active)
          (omega (arith, once, keys g.id))
          (All-filter (IsOnly g.id g) is_active_group db.groups only) own)
