-- ===== src/Entities.antt =====
-- The rows that the services share (ahjoorxmr/src/*/entities), and the database as one record: a
-- list of rows for each table, and the effects that were sent to other services, oldest first.
-- Identifiers, wallets, hashes, names and amounts that are only stored and compared are numbers.
use ahjoor_backend.Common.{
  ℕ, ◌+◌, ◌==◌, ◌&&◌, Bool, true, false, Option, none, some, List, [], ◌∷◌, ◌++◌, find, count_by,
  update_where, HasUniqueKeys,
}
use ahjoor_backend.Finance.{Penalty, Contribution, PayoutTransaction}

pub data GroupStatus : Type 0 where
  pending active completed : GroupStatus

pub data PayoutOrderStrategy : Type 0 where
  sequential random admin_defined : PayoutOrderStrategy

pub data MembershipStatus : Type 0 where
  active suspended removed : MembershipStatus

pub data WaitlistStatus : Type 0 where
  waiting admitted cancelled : WaitlistStatus

abbrev pub is_pending : GroupStatus → Bool
is_pending GroupStatus.pending = true
is_pending _ = false

abbrev pub is_active : GroupStatus → Bool
is_active GroupStatus.active = true
is_active _ = false

abbrev pub is_sequential : PayoutOrderStrategy → Bool
is_sequential PayoutOrderStrategy.sequential = true
is_sequential _ = false

abbrev pub is_active_member : MembershipStatus → Bool
is_active_member MembershipStatus.active = true
is_active_member _ = false

abbrev pub is_suspended : MembershipStatus → Bool
is_suspended MembershipStatus.suspended = true
is_suspended _ = false

abbrev pub is_waiting : WaitlistStatus → Bool
is_waiting WaitlistStatus.waiting = true
is_waiting _ = false

abbrev pub is_some {ℓ} : {A : Type ℓ} → Option A → Bool
is_some none = false
is_some (some a) = true

abbrev pub is_none {ℓ} : {A : Type ℓ} → Option A → Bool
is_none none = true
is_none (some a) = false

pub record Group : Type 0 where
  pub id : ℕ
  pub name : ℕ
  pub contract_address : Option ℕ
  pub admin_wallet : ℕ
  pub contribution_amount : ℕ
  pub token : ℕ
  pub asset_code : ℕ
  pub asset_issuer : Option ℕ
  pub unit_of_account_asset_code : ℕ
  pub unit_of_account_asset_issuer : Option ℕ
  pub fx_tolerance_bps : ℕ
  pub penalty_rate : ℕ
  pub round_duration : ℕ
  pub status : GroupStatus
  pub current_round : ℕ
  pub total_rounds : ℕ
  pub payout_order_strategy : PayoutOrderStrategy
  pub min_members : ℕ
  pub max_members : ℕ
  pub stale_at : Option ℕ
  pub start_date : Option ℕ
  pub end_date : Option ℕ
  pub deleted_at : Option ℕ

pub record Membership : Type 0 where
  pub id : ℕ
  pub group_id : ℕ
  pub user_id : ℕ
  pub wallet_address : ℕ
  pub payout_order : Option ℕ
  pub has_received_payout : Bool
  pub has_paid_current_round : Bool
  pub transaction_hash : Option ℕ
  pub status : MembershipStatus

pub record WaitlistEntry : Type 0 where
  pub id : ℕ
  pub group_id : ℕ
  pub user_id : ℕ
  pub wallet_address : ℕ
  pub position : ℕ
  pub status : WaitlistStatus

pub data NotificationType : Type 0 where
  member_left payout_received member_suspended member_reinstated round_opened : NotificationType
  admin_transferred waitlist_admitted payout_blocked_pending_penalty : NotificationType
  payment_reminder : NotificationType
  penalty_assessed penalty_waived penalty_disputed penalty_resolved : NotificationType

pub data Effect : Type 0 where
  notified : ℕ → NotificationType → Effect
  -- `setImmediate(() => admitFromWaitlist(groupId))`: it runs after the handler.
  admission_scheduled : ℕ → Effect
  group_archived group_activated group_completed admin_transfer_logged : ℕ → Effect
  dispute_submitted dispute_resolved : ℕ → Effect
  -- `queueService.addPayoutReconciliation`.
  reconciliation_queued : ℕ → Effect
  -- `queueService.addTxConfirmation`, and the webhook of a contribution.
  confirmation_queued contribution_notified : ℕ → Effect

pub record Db : Type 0 where
  pub groups : List Group
  pub memberships : List Membership
  pub waitlist : List WaitlistEntry
  pub penalties : List Penalty
  pub contributions : List Contribution
  pub payouts : List PayoutTransaction
  pub effects : List Effect

abbrev pub emit : Effect → Db → Db
emit e db = record db { effects = db.effects ++ e ∷ [] }

-- `findOne({ where: { id } })` on groups: TypeORM leaves out rows with a `deletedAt`.
abbrev pub is_group : ℕ → Group → Bool
is_group gid g = g.id == gid && is_none g.deleted_at

abbrev pub find_group : ℕ → List Group → Option Group
find_group gid = find (is_group gid)

-- `where: { groupId }` and `where: { groupId, userId }` on memberships.
abbrev pub in_group : ℕ → Membership → Bool
in_group gid m = m.group_id == gid

abbrev pub is_member : ℕ → ℕ → Membership → Bool
is_member gid uid m = m.group_id == gid && m.user_id == uid

abbrev pub find_membership : ℕ → ℕ → List Membership → Option Membership
find_membership gid uid = find (is_member gid uid)

abbrev pub member_count : ℕ → List Membership → ℕ
member_count gid = count_by (in_group gid)

-- `save(row)` for a row that is in the table: the row with its id is replaced.
abbrev pub has_id : ℕ → Membership → Bool
has_id i m = m.id == i

abbrev pub save_membership : Membership → List Membership → List Membership
save_membership m = update_where (has_id m.id) (λ _. m)

abbrev pub save_group : Group → List Group → List Group
save_group g = update_where (λ h. h.id == g.id) (λ _. g)

-- SQL MAX ignores NULL, and is NULL where there is no value.
abbrev pub max_of : Option ℕ → Option ℕ → Option ℕ
max_of none b = b
max_of (some a) none = some a
max_of (some a) (some b) = some (Prim.Native.Nat.max a b)

-- `SELECT MAX(payoutOrder) WHERE groupId = :groupId`.
unfoldable pub max_payout_order : ℕ → List Membership → Option ℕ
max_payout_order gid [] = none
max_payout_order gid (m ∷ ms) = elim (in_group gid m) [
  | true ↦ max_of m.payout_order (max_payout_order gid ms)
  | false ↦ max_payout_order gid ms
]

-- `maxOrder !== null && maxOrder !== undefined ? Number(maxOrder) + 1 : 0`.
abbrev pub next_order : Option ℕ → ℕ
next_order none = 0
next_order (some k) = k + 1

-- The primary key of the groups.
abbrev pub HasGroupKeys : Db → Type 0
HasGroupKeys db = HasUniqueKeys (λ (g : Group). g.id) db.groups
