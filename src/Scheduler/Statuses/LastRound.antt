-- ===== src/Scheduler/Statuses/LastRound.antt =====
-- What the hourly job makes of a group, and of one whose last round is still running.
use ahjoor_backend.Common.{
  ℕ, ◌≡◌, refl, ap, ◌∙◌, subst, arith, ◌==◌, Bool, true, false, some, List, [], ◌∷◌, find,
  filter_by, All, All-filter, Bool-cases, inl, inr, ◌⊎◌, ◌≢◌, find-save, find-holds,
  find-update_other, save-keys, All-unique, err, bad_request,
}
use ahjoor_backend.Entities.{
  Group, GroupStatus, Db, find_group, is_group, HasGroupKeys, member_count, is_some,
}
use ahjoor_backend.Stellar.{Outside}
use ahjoor_backend.Payout.{distribute_payout}
use ahjoor_backend.Payout.Distribution.{distribute_payout_completed}
use ahjoor_backend.Rounds.Advance.{try_advance_round-idle}
use ahjoor_backend.Rounds.{try_advance_round}
use ahjoor_backend.Scheduler.Statuses.{
  start_if_ready, end_if_over, check_and_update_group_status, update_all, is_open_group,
  update_group_statuses,
}

-- The group after the job, with a number of membership rows.
abbrev pub updated : ℕ → Group → Group
updated members g = end_if_over (start_if_ready members g)

check-memberships :
    (h : Group) (db : Db) → (check_and_update_group_status h db).0.memberships ≡ db.memberships
unfolding check_and_update_group_status
check-memberships h db = ground arith

check-keys :
    (h : Group) (db : Db) → HasGroupKeys db → HasGroupKeys (check_and_update_group_status h db).0
unfolding check_and_update_group_status
check-keys h db keys i = ground (
  arith,
  keys i,
  save-keys (λ (g : Group). g.id) db.groups (updated (member_count h.id db.memberships) h) keys i,
)

check-other :
    (gid : ℕ) (h : Group) (db : Db)
    → h.id ≢ gid
    → find_group gid (check_and_update_group_status h db).0.groups ≡ find_group gid db.groups
unfolding check_and_update_group_status
check-other gid h db ne =
    let after = updated (member_count h.id db.memberships) h in
    ground (
      arith,
      find-update_other (is_group gid) (λ (g : Group). g.id == after.id) (λ g. after) db.groups
          (λ x e. ground arith),
    )

-- The job has not come to the group yet, or it has; the group has `n` rows of members.
abbrev IsStored : ℕ → ℕ → Group → Db → Type 0
IsStored gid n g db =
    (find_group gid db.groups ≡ some g) ⊎ (find_group gid db.groups ≡ some (updated n g))

check-same :
    (gid n : ℕ) (g : Group) (db : Db)
    → HasGroupKeys db
    → is_group gid g ≡ true
    → member_count gid db.memberships ≡ n
    → IsStored gid n g db
    → find_group gid (check_and_update_group_status g db).0.groups ≡ some (updated n g)
unfolding check_and_update_group_status
check-same gid n g db keys is e (inl f) =
    ground (arith, find-save (λ (x : Group). x.id) (is_group gid) db.groups (updated n g) f, keys)
check-same gid n g db keys is e (inr f) =
    ground (arith, find-save (λ (x : Group). x.id) (is_group gid) db.groups (updated n g) f, keys)

-- A group among the rows that the loop goes through, and the one row with its id.
abbrev pub has_group : ℕ → List Group → Bool
has_group gid gs = is_some (find (λ (g : Group). g.id == gid) gs)

abbrev pub IsOnly : ℕ → Group → Group → Type 0
IsOnly gid g h = h.id ≡ gid → h ≡ g

check-IsStored :
    (gid n : ℕ) (g h : Group) (db : Db)
    → HasGroupKeys db
    → is_group gid g ≡ true
    → member_count gid db.memberships ≡ n
    → IsOnly gid g h
    → IsStored gid n g db
    → IsStored gid n g (check_and_update_group_status h db).0
check-IsStored gid n g h db keys is e only s = elim (Bool-cases (h.id == gid)) [
  | inl hit ↦
      let same : h ≡ g = only (ground arith) in inr (rw same (check-same gid n g db keys is e s))
  | inr miss ↦ rw (check-other gid h db (ground arith)) s
]

check-todo :
    (gid n : ℕ) (g h : Group) (gs : List Group) (db : Db)
    → HasGroupKeys db
    → is_group gid g ≡ true
    → member_count gid db.memberships ≡ n
    → IsOnly gid g h
    → IsStored gid n g db
    → (has_group gid (h ∷ gs) ≡ true) ⊎ (find_group gid db.groups ≡ some (updated n g))
    → (has_group gid gs ≡ true)
      ⊎ (find_group gid (check_and_update_group_status h db).0.groups ≡ some (updated n g))
unfolding find
check-todo gid n g h gs db keys is e only s todo = elim (Bool-cases (h.id == gid)) [
  | inl hit ↦
      let same : h ≡ g = only (ground arith) in inr (rw same (check-same gid n g db keys is e s))
  | inr miss ↦ elim todo [
    | inl has ↦ inl (ground arith)
    | inr f ↦ inr (check-other gid h db (ground arith) ∙ f)
  ]
]

update_all-updated :
    (gid n : ℕ) (g : Group) (gs : List Group) (db : Db) (count : ℕ)
    → HasGroupKeys db
    → is_group gid g ≡ true
    → member_count gid db.memberships ≡ n
    → All (IsOnly gid g) gs
    → IsStored gid n g db
    → (has_group gid gs ≡ true) ⊎ (find_group gid db.groups ≡ some (updated n g))
    → find_group gid (update_all gs (db, count)).0.groups ≡ some (updated n g)
unfolding update_all find
update_all-updated gid n g [] db count keys is e only s (inl never) = absurd (ground arith)
update_all-updated gid n g [] db count keys is e only s (inr f) = f
update_all-updated gid n g (h ∷ gs) db count keys is e only s todo =
    update_all-updated gid n g gs (check_and_update_group_status h db).0 _ (check-keys h db keys) is
      (ap (member_count gid) (check-memberships h db) ∙ e) only.1
      (check-IsStored gid n g h db keys is e only.0 s)
      (check-todo gid n g h gs db keys is e only.0 s todo)

pub filter-has_group :
    (gid : ℕ) (p : Group → Bool) (gs : List Group) {g : Group}
    → find_group gid gs ≡ some g
    → p g ≡ true
    → has_group gid (filter_by p gs) ≡ true
unfolding find filter_by
filter-has_group gid p [] f h = absurd (ground arith)
filter-has_group gid p (x ∷ gs) {g} f h = ground (arith, filter-has_group gid p gs {g = g})

-- The hourly job stores each open group as its two tests make it: active if it was pending with enough
-- members and a contract, and then COMPLETED if its current round is the last one; group ids are unique.
pub update_group_statuses-updated :
    (gid : ℕ) (db : Db) {g : Group}
    → HasGroupKeys db
    → find_group gid db.groups ≡ some g
    → is_open_group g ≡ true
    → find_group gid (update_group_statuses db).0.groups
      ≡ some (updated (member_count gid db.memberships) g)
unfolding update_group_statuses
update_group_statuses-updated gid db {g} keys f open_group =
    let is = find-holds (is_group gid) db.groups f in
    let only : All (λ (h : Group). h.id ≡ g.id → h ≡ g) db.groups =
      All-unique (λ (x : Group). x.id) (is_group gid) db.groups f keys in
    let id : g.id ≡ gid = ground arith in
    update_all-updated gid (member_count gid db.memberships) g (filter_by is_open_group db.groups)
      db 0 keys is refl
      (All-filter (IsOnly gid g) is_open_group db.groups
        (subst (λ i. All (λ (h : Group). h.id ≡ i → h ≡ g) db.groups) id only))
      (inl f) (inl (filter-has_group gid is_open_group db.groups f open_group))

-- The hourly job ends an active group as soon as its current round is the last one, whether or
-- not the members have paid: the job leaves the group COMPLETED, and in the state that it leaves
-- tryAdvanceRound does nothing for the group and every payout call for it is refused; group ids
-- are unique.
pub last_round_cut_short :
    (out : Outside) (id gid round : ℕ) (db : Db) {g : Group}
    → HasGroupKeys db
    → find_group gid db.groups ≡ some g
    → g.status ≡ GroupStatus.active
    → g.current_round ≡ g.total_rounds
    → let db' = (update_group_statuses db).0 in
      (find_group gid db'.groups ≡ some (record g { status = GroupStatus.completed }))
      × (try_advance_round out id gid db' ≡ (db', false))
      × (distribute_payout out id gid round db' ≡ (db', err bad_request))
last_round_cut_short out id gid round db {g} keys f active last =
    let stored =
      update_group_statuses-updated gid db keys f
        (ground (arith, find-holds (is_group gid) db.groups f)) in
    let done : Group = record g { status = GroupStatus.completed } in
    let now : find_group gid (update_group_statuses db).0.groups ≡ some done =
      stored ∙ ap some (ground arith) in
    (
      now,
      try_advance_round-idle out id gid (update_group_statuses db).0 now (λ e. cc),
      distribute_payout_completed out id gid round (update_group_statuses db).0 now refl,
    )
