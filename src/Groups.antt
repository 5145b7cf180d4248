-- ===== src/Groups.antt =====
-- ahjoorxmr/src/groups/groups.service.ts: the life of a group, from its update while it is pending to the
-- rounds that its admin advances by hand.
mod Tests
pub mod Templates
pub mod Cloning
pub mod Activation
mod Shuffle
mod StartOrders
pub mod Deletion
pub mod ManualRound
pub mod Transfer
use ahjoor_backend.Common.{
  ℕ, suc, zero, ◌+◌, ◌-◌, ◌==◌, ltb, leb, if◌then◌else◌, not, ◌&&◌, ◌||◌, Bool, true, false, Option,
  none, some, List, [], ◌∷◌, ◌++◌, map, length, find, count_by, filter_by, update_where, all_of,
  Result, ok, err, HttpError, not_found, bad_request, forbidden, internal_error, ◌>>=◌, ◌>>◌,
  throw_if, or_throw,
}
use ahjoor_backend.Entities.{
  Group, GroupStatus, PayoutOrderStrategy, Membership, Db, Effect, NotificationType, notified,
  group_archived, group_activated, admin_transfer_logged, emit, is_active, is_pending,
  is_active_member, is_none, in_group, is_member, has_id, find_group, member_count, save_group,
  save_membership,
}
use ahjoor_backend.Stellar.{Outside, Disbursement, refused, lost, paid_out, or_else}
use ahjoor_backend.Memberships.{is_due}

-- `UpdateGroupDto`: the fields that are given are assigned.
pub record UpdateGroup : Type 0 where
  pub name : Option ℕ
  pub admin_wallet : Option ℕ
  pub contribution_amount : Option ℕ
  pub token : Option ℕ
  pub round_duration : Option ℕ
  pub total_rounds : Option ℕ
  pub contract_address : Option ℕ

abbrev pub assign_fields : UpdateGroup → Group → Group
assign_fields dto g = record g {
  name = or_else dto.name g.name;
  admin_wallet = or_else dto.admin_wallet g.admin_wallet;
  contribution_amount = or_else dto.contribution_amount g.contribution_amount;
  token = or_else dto.token g.token;
  round_duration = or_else dto.round_duration g.round_duration;
  total_rounds = or_else dto.total_rounds g.total_rounds;
  contract_address = elim dto.contract_address [
    | none ↦ g.contract_address
    | some contract ↦ some contract
  ];
}

pub update : ℕ → UpdateGroup → ℕ → Db → Result (Db × Group)
update gid dto wallet db = do
  group ← or_throw (find_group gid db.groups) not_found
  throw_if (not (group.admin_wallet == wallet)) forbidden
  throw_if (not (is_pending group.status)) bad_request
  let changed = assign_fields dto group
  ok (record db { groups = save_group changed db.groups }, changed)

-- `softDelete(id)` sets `deletedAt` to the time of the call.
pub soft_delete : ℕ → ℕ → ℕ → Db → Result Db
soft_delete now gid wallet db = do
  group ← or_throw (find_group gid db.groups) not_found
  throw_if (not (group.admin_wallet == wallet)) forbidden
  let deleted =
      update_where (λ (g : Group). g.id == gid) (λ g. record g { deleted_at = some now }) db.groups
  ok (emit (group_archived gid) (record db { groups = deleted }))

-- `Array.from({ length }, (_, i) => i)`, from an index on.
pub indices : ℕ → ℕ → List ℕ
indices i zero = []
indices i (suc n) = i ∷ indices (i + 1) n

pub get_elem? : List ℕ → ℕ → Option ℕ
get_elem? [] i = none
get_elem? (x ∷ xs) zero = some x
get_elem? (x ∷ xs) (suc i) = get_elem? xs i

pub set_elem : ℕ → ℕ → List ℕ → List ℕ
set_elem i y [] = []
set_elem zero y (x ∷ xs) = y ∷ xs
set_elem (suc i) y (x ∷ xs) = x ∷ set_elem i y xs

-- `[xs[i], xs[j]] = [xs[j], xs[i]]`, for indices in range: `Math.floor(Math.random() * (i + 1))` is i
-- at most.
pub swap : ℕ → ℕ → List ℕ → List ℕ
unfolding get_elem? set_elem
swap i j xs = elim (get_elem? xs i) [
  | none ↦ xs
  | some a ↦ elim (get_elem? xs j) [ none ↦ xs | some b ↦ set_elem j a (set_elem i b xs) ]
]

-- The loop from the last index down to 1. `choose i` is the random index up to i.
pub shuffle : (ℕ → ℕ) → ℕ → List ℕ → List ℕ
unfolding swap
shuffle choose zero xs = xs
shuffle choose (suc i) xs = shuffle choose i (swap (suc i) (choose (suc i)) xs)

-- The members of the group get the indices, in the order of the table.
pub number_members : ℕ → List ℕ → List Membership → List Membership
number_members gid [] ms = ms
number_members gid (i ∷ is) [] = []
number_members gid (i ∷ is) (m ∷ ms) = elim (in_group gid m) [
  | true ↦ record m { payout_order = some i } ∷ number_members gid is ms
  | false ↦ m ∷ number_members gid (i ∷ is) ms
]

-- The payout orders of the group's members, or none where one of them is null.
pub collect_orders : ℕ → List Membership → Option (List ℕ)
collect_orders gid [] = some []
collect_orders gid (m ∷ ms) =
    let rest = collect_orders gid ms in
    elim (in_group gid m) [
      | false ↦ rest
      | true ↦ elim m.payout_order [
        | none ↦ none
        | some k ↦ elim rest [ none ↦ none | some ks ↦ some (k ∷ ks) ]
      ]
    ]

pub insert_number : ℕ → List ℕ → List ℕ
insert_number k [] = k ∷ []
insert_number k (x ∷ xs) = if leb k x then k ∷ x ∷ xs else x ∷ insert_number k xs

-- `sort((a, b) => a - b)`.
pub sort_numbers : List ℕ → List ℕ
unfolding insert_number
sort_numbers [] = []
sort_numbers (k ∷ ks) = insert_number k (sort_numbers ks)

-- `sortedOrders[i] === i` for every index.
pub is_continuous : ℕ → List ℕ → Bool
is_continuous i [] = true
is_continuous i (k ∷ ks) = k == i && is_continuous (i + 1) ks

-- The payout orders by the strategy, or none where the request is refused.
pub order_members : (ℕ → ℕ) → PayoutOrderStrategy → ℕ → List Membership → Option (List Membership)
unfolding indices shuffle number_members collect_orders sort_numbers is_continuous
order_members choose PayoutOrderStrategy.sequential gid ms = some ms
order_members choose PayoutOrderStrategy.random gid ms =
    let n = member_count gid ms in
    some (number_members gid (shuffle choose (n - 1) (indices 0 n)) ms)
order_members choose PayoutOrderStrategy.admin_defined gid ms = elim (collect_orders gid ms) [
  | none ↦ none
  | some ks ↦ if is_continuous 0 (sort_numbers ks) then some ms else none
]

-- The deployment, or its failure, which takes the status and round back.
pub deploy_group : Option ℕ → ℕ → Group → Db → Db × Result Group
deploy_group none gid started db =
    let back = record started { status = GroupStatus.pending; current_round = 0 } in
    (record db { groups = save_group back db.groups }, err bad_request)
deploy_group (some contract) gid started db =
    let deployed = record started { contract_address = some contract } in
    (emit (group_activated gid) (record db { groups = save_group deployed db.groups }), ok deployed)

pub start_group : (ℕ → ℕ) → Option ℕ → ℕ → Group → Db → Db × Result Group
unfolding order_members deploy_group
start_group choose contract gid group db =
    elim (order_members choose group.payout_order_strategy gid db.memberships) [
      | none ↦ (db, err bad_request)
      | some ms ↦
          let started = record group { status = GroupStatus.active; current_round = 1 } in
          let saved = record db { memberships = ms; groups = save_group started db.groups } in
          deploy_group contract gid started saved
    ]

-- `contract` is what the deployment returns, or none where it throws.
pub activate_group : (ℕ → ℕ) → Option ℕ → ℕ → ℕ → Db → Db × Result Group
unfolding start_group
activate_group choose contract gid wallet db = elim (find_group gid db.groups) [
  | none ↦ (db, err not_found)
  | some group ↦
      if not (group.admin_wallet == wallet)
      then (db, err forbidden)
      else if not (is_pending group.status)
      then (db, err bad_request)
      else if ltb (member_count gid db.memberships) group.min_members
      then (db, err bad_request)
      else start_group choose contract gid group db
]

-- The old admin is told where a member of the group has that wallet.
pub transfer_notices : ℕ → ℕ → ℕ → List Membership → List Effect
transfer_notices gid target old ms =
    notified target NotificationType.admin_transferred
    ∷ elim (find (λ m. in_group gid m && m.wallet_address == old) ms) [
      | none ↦ []
      | some m ↦ notified m.user_id NotificationType.admin_transferred ∷ []
    ]

pub transfer_admin : ℕ → ℕ → ℕ → Db → Result (Db × Group)
unfolding transfer_notices
transfer_admin gid wallet target db = do
  group ← or_throw (find_group gid db.groups) not_found
  throw_if (not (group.admin_wallet == wallet)) forbidden
  heir ←
      or_throw (find (λ m. is_member gid target m && is_active_member m.status) db.memberships)
        bad_request
  let changed = record group { admin_wallet = heir.wallet_address }
  let saved = record db { groups = save_group changed db.groups }
  let logged = emit (admin_transfer_logged gid) saved
  let notices = transfer_notices gid target group.admin_wallet db.memberships
  ok (record logged { effects = logged.effects ++ notices }, changed)
