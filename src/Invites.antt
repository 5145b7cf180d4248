-- ===== src/Invites.antt =====
-- ahjoorxmr/src/groups/invites/group-invite.service.ts: membership by an invite code. The invites are a
-- table of their own beside the database of the other services.
pub mod Uses
mod Tests
use ahjoor_backend.Common.{
  ℕ, ◌+◌, ◌==◌, ltb, leb, if◌then◌else◌, not, ◌&&◌, ◌||◌, Bool, true, false, Option, none, some,
  List, [], ◌∷◌, ◌++◌, find, update_where, Result, ok, err, HttpError, not_found, gone, forbidden,
  ◌>>=◌, ◌>>◌, throw_if, or_throw, save_row, count_by,
}
use ahjoor_backend.Entities.{Membership, Db, find_group, find_membership, is_some}
use ahjoor_backend.Memberships.{new_membership}
use ahjoor_backend.Stellar.{or_else}

pub data InviteStatus : Type 0 where
  active expired exhausted : InviteStatus

pub record Invite : Type 0 where
  pub id : ℕ
  pub group_id : ℕ
  pub created_by : ℕ
  pub code : ℕ
  pub max_uses : ℕ
  pub used_count : ℕ
  pub expires_at : ℕ
  pub status : InviteStatus

abbrev pub is_open : InviteStatus → Bool
is_open active = true
is_open _ = false

abbrev pub find_invite : ℕ → List Invite → Option Invite
find_invite code = find (λ (i : Invite). i.code == code)

abbrev pub save_invite : Invite → List Invite → List Invite
save_invite = save_row (λ (i : Invite). i.id)

abbrev pub is_wallet : ℕ → Option ℕ → Bool
is_wallet admin none = false
is_wallet admin (some wallet) = admin == wallet

-- `requester_wallet` is the wallet of the requesting user, where there is such a user. A member whose id
-- is the admin wallet passes without it. `expiry` is in milliseconds.
pub create_invite :
    ℕ → ℕ → ℕ → ℕ → ℕ → Option ℕ → Option ℕ → ℕ → List Invite → Db → Result (List Invite × Invite)
create_invite now id code gid requester requester_wallet max_uses expiry invites db = do
  group ← or_throw (find_group gid db.groups) not_found
  let mine = find_membership gid requester db.memberships
  let by_id : Bool = is_some mine && group.admin_wallet == requester
  throw_if (not by_id && not (is_wallet group.admin_wallet requester_wallet)) forbidden
  let invite : Invite = record {
    id = id;
    group_id = gid;
    created_by = requester;
    code = code;
    max_uses = or_else max_uses 1;
    used_count = 0;
    expires_at = now + expiry;
    status = active;
  }
  ok (invites ++ invite ∷ [], invite)

abbrev pub use_invite : Invite → Invite
use_invite i = record i {
  used_count = i.used_count + 1;
  status = if leb i.max_uses (i.used_count + 1) then exhausted else i.status;
}

-- One transaction under the invite's row lock. A member of the group gets its own row back.
pub join_by_code : ℕ → ℕ → ℕ → ℕ → ℕ → List Invite → Db → Result (List Invite × Db × Membership)
join_by_code now code uid wallet id invites db = do
  invite ← or_throw (find_invite code invites) not_found
  throw_if (not (is_open invite.status) || ltb invite.expires_at now) gone
  throw_if (leb invite.max_uses invite.used_count) gone
  let joined = new_membership id invite.group_id uid wallet none
  ok (elim (find_membership invite.group_id uid db.memberships) [
    | some existing ↦ (invites, db, existing)
    | none ↦ (
      save_invite (use_invite invite) invites,
      record db { memberships = db.memberships ++ joined ∷ [] },
      joined,
    )
  ])

-- The invites that are expired, and their number.
pub expire_stale_invites : ℕ → List Invite → List Invite × ℕ
expire_stale_invites now invites =
    let stale = λ (i : Invite). is_open i.status && ltb i.expires_at now in
    (update_where stale (λ i. record i { status = expired }) invites, count_by stale invites)
