-- ===== src/EventListener/Handlers.antt =====
-- What an event of the contract changes in the tables. A statement that breaks a unique index throws.
use Prim.Native.String.{String}
use ahjoor_backend.Common.{
  ℕ, ◌+◌, ◌==◌, if◌then◌else◌, not, ◌&&◌, Bool, true, false, Option, none, some, List, [], ◌∷◌,
  ◌++◌, find, update_where,
}
use ahjoor_backend.Finance.{Contribution, ContributionStatus}
use ahjoor_backend.Stellar.{or_else}
use ahjoor_backend.Entities.{Group, Membership, Db, is_some, in_group, is_member}
use ahjoor_backend.Contributions.{is_contribution_of}
use ahjoor_backend.EventListener.Payload.{
  Readings, ParsedEvent, contribution_received, round_completed, Transaction, Value, read_string,
  read_number,
}

-- The fields of a ContributionReceived event.
pub record Received : Type 0 where
  pub group_id : ℕ
  pub user_id : ℕ
  pub wallet_address : ℕ
  pub amount : ℕ
  pub round_number : ℕ

-- None where a field is missing, which skips the event.
unfoldable pub read_received : Readings → List (String × Value) → Option Received
read_received readings payload = elim (read_string readings payload ("groupId" ∷ "group_id" ∷ [])) [
  | none ↦ none
  | some gid ↦ elim (read_string readings payload ("userId" ∷ "user_id" ∷ "memberId" ∷ [])) [
    | none ↦ none
    | some uid ↦
        elim (read_string readings payload
          ("walletAddress" ∷ "wallet_address" ∷ "memberWallet" ∷ [])) [
            | none ↦ none
            | some wallet ↦ elim (read_string readings payload ("amount" ∷ [])) [
              | none ↦ none
              | some amount ↦ some (record {
                group_id = gid;
                user_id = uid;
                wallet_address = wallet;
                amount = amount;
                round_number =
                    or_else (read_number readings payload ("roundNumber" ∷ "round_number" ∷ [])) 1;
              })
            ]
          ]
  ]
]

-- A new row has the defaults of its columns, PENDING among them.
unfoldable pub received_row : Readings → ℕ → ℕ → ℕ → Received → Contribution
received_row readings id hash timestamp r = record {
  id = id;
  group_id = r.group_id;
  user_id = r.user_id;
  wallet_address = r.wallet_address;
  round_number = r.round_number;
  amount = r.amount;
  transaction_hash = hash;
  timestamp = timestamp;
  asset_code = readings.xlm;
  asset_issuer = none;
  unit_of_account_asset_code = readings.xlm;
  unit_of_account_asset_issuer = none;
  fx_rate = some readings.one;
  fx_rate_captured_at = none;
  fx_rate_expires_at = none;
  fx_tolerance_bps = 200;
  normalized_amount = none;
  status = ContributionStatus.pending;
  idempotency_key = none;
}

abbrev pub rewrite_row : ℕ → Received → Contribution → Contribution
rewrite_row timestamp r c = record c {
  group_id = r.group_id;
  user_id = r.user_id;
  wallet_address = r.wallet_address;
  amount = r.amount;
  round_number = r.round_number;
  timestamp = timestamp;
}

abbrev pub mark_paid : Membership → Membership
mark_paid m = record m { has_paid_current_round = true }

-- Another row of the same user, group and round.
abbrev pub is_taken : ℕ → Received → List Contribution → Bool
is_taken id r cs = is_some (
    find
      (λ (c : Contribution).
        not (c.id == id) && is_contribution_of r.user_id r.group_id r.round_number c)
      cs)

-- None where the row breaks the index on user, group and round.
unfoldable pub record_received : Readings → ℕ → ℕ → ℕ → Received → Db → Option Db
unfolding received_row
record_received readings new_id timestamp hash r db =
    elim (find (λ (c : Contribution). c.transaction_hash == hash) db.contributions) [
      | some old ↦
          if is_taken old.id r db.contributions
          then none
          else some (record db {
            contributions =
                update_where (λ (c : Contribution). c.id == old.id) (rewrite_row timestamp r)
                  db.contributions;
            memberships = update_where (is_member r.group_id r.user_id) mark_paid db.memberships;
          })
      | none ↦
          if is_some
            (find (is_contribution_of r.user_id r.group_id r.round_number) db.contributions)
          then none
          else some (record db {
            contributions = db.contributions ++ received_row readings new_id hash timestamp r ∷ [];
            memberships = update_where (is_member r.group_id r.user_id) mark_paid db.memberships;
          })
    ]

unfoldable pub handle_contribution_received :
    Readings → ℕ → ℕ → List (String × Value) → Transaction → Db → Option Db
unfolding read_received record_received
handle_contribution_received readings new_id now payload tx db =
    elim (read_received readings payload) [
      | none ↦ some db
      | some r ↦ record_received readings new_id (or_else tx.created_at now) tx.hash r db
    ]

abbrev pub is_in_order : ℕ → Option ℕ → Bool
is_in_order order none = false
is_in_order order (some k) = k == order

-- The member that was paid: by the user, by the wallet or by the payout order, the first that is there.
unfoldable pub is_paid_member : Readings → List (String × Value) → ℕ → Membership → Bool
is_paid_member readings payload gid m =
    elim (read_string readings payload
      ("payoutRecipientUserId" ∷ "payoutUserId" ∷ "recipientUserId" ∷ "userId" ∷ "user_id" ∷ [])) [
        | some uid ↦ is_member gid uid m
        | none ↦
            elim (read_string readings payload (
              "payoutRecipientWallet" ∷ "recipientWallet" ∷ "walletAddress" ∷ "wallet_address"
              ∷ [])) [
                | some wallet ↦ in_group gid m && m.wallet_address == wallet
                | none ↦ elim (read_number readings payload ("payoutOrder" ∷ "payout_order" ∷ [])) [
                  | some order ↦ in_group gid m && is_in_order order m.payout_order
                  | none ↦ false
                ]
              ]
      ]

-- `increment` and `update` also write rows of groups that were deleted.
unfoldable pub complete_round : (Membership → Bool) → ℕ → Db → Db
complete_round is_paid gid db = record db {
  groups =
      update_where (λ (g : Group). g.id == gid)
        (λ (g : Group). record g { current_round = g.current_round + 1 }) db.groups;
  memberships =
      update_where is_paid (λ (m : Membership). record m { has_received_payout = true })
        (update_where (in_group gid)
          (λ (m : Membership). record m { has_paid_current_round = false }) db.memberships);
}

unfoldable pub handle_round_completed : Readings → List (String × Value) → Db → Db
unfolding complete_round
handle_round_completed readings payload db =
    elim (read_string readings payload ("groupId" ∷ "group_id" ∷ [])) [
      | none ↦ db
      | some gid ↦ complete_round (is_paid_member readings payload gid) gid db
    ]

-- The events in order; one that throws ends the loop, and what was written stays.
unfoldable pub handle_events : Readings → ℕ → ℕ → Transaction → List ParsedEvent → Db → Db
unfolding handle_contribution_received handle_round_completed
handle_events readings new_id now tx [] db = db
handle_events readings new_id now tx (e ∷ es) db = elim e.name [
  | round_completed ↦
      handle_events readings new_id now tx es (handle_round_completed readings e.payload db)
  | contribution_received ↦
      elim (handle_contribution_received readings new_id now e.payload tx db) [
        | none ↦ db
        | some db' ↦ handle_events readings new_id now tx es db'
      ]
]
