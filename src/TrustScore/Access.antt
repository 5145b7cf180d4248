-- ===== src/TrustScore/Access.antt =====
-- `getTrustScore` and `isCallerGroupAdminOfUser`: who may read a score.
use ahjoor_backend.Common.{
  includes, ℕ, ◌≡◌, ◌⊎◌, inl, inr, arith, ◌==◌, if◌then◌else◌, not, ◌&&◌, Bool, true, false, none,
  some, List, [], ◌∷◌, map, find, filter_by, lookup, Result, ok, err, forbidden, not_found,
  Bool-cases, length, Option-cases, find-holds,
}
use ahjoor_backend.Entities.{Group, Membership, Db, is_some, is_none}
use ahjoor_backend.TrustScore.{MemberTrustScore, is_of_user}
use ahjoor_backend.TrustScore.Counts.{no_components}
use ahjoor_backend.TrustScore.Recalculation.{Scores}

-- `last_calculated_at` is the number 0 where there is none.
abbrev pub no_score : MemberTrustScore
no_score = record {
  score = 0;
  anti_gaming = record { confidence = 0; flagged = false };
  components = no_components;
  last_calculated_at = 0;
}

-- `users` are the ids of all users.
unfoldable pub get_trust_score : List ℕ → Scores → ℕ → ℕ → Bool → Bool → Result MemberTrustScore
get_trust_score users scores target caller is_admin is_group_admin =
    if not (caller == target) && not is_admin && not is_group_admin
    then err forbidden
    else elim (lookup target scores) [
      | some row ↦ ok row
      | none ↦ if includes target users then ok no_score else err not_found
    ]

-- The wallets of the users by id.
unfoldable pub is_caller_group_admin_of_user : List (ℕ × ℕ) → ℕ → ℕ → Db → Bool
is_caller_group_admin_of_user wallets caller target db =
    let group_ids =
      map (λ (m : Membership). m.group_id) (filter_by (is_of_user target) db.memberships) in
    if length group_ids == 0 then false else elim (lookup caller wallets) [
      | none ↦ false
      | some wallet ↦ is_some (
          find
            (λ (g : Group).
              includes g.id group_ids && g.admin_wallet == wallet && is_none g.deleted_at)
            db.groups)
    ]

-- What the controller asks for: the caller's rights are those of the tables.
unfoldable pub read_trust_score :
    List (ℕ × ℕ) → List ℕ → Scores → ℕ → ℕ → Bool → Db → Result MemberTrustScore
unfolding get_trust_score is_caller_group_admin_of_user
read_trust_score wallets users scores target caller is_admin db =
    get_trust_score users scores target caller is_admin
      (is_caller_group_admin_of_user wallets caller target db)

-- A group of the target whose admin has the caller's wallet.
pub record Administers (wallets : List (ℕ × ℕ)) (target caller : ℕ) (db : Db) : Type 0 where
  pub group : Group
  pub wallet : ℕ
  pub member : Membership
  pub of_caller : lookup caller wallets ≡ some wallet
  pub administers : group.admin_wallet ≡ wallet
  pub kept : group.deleted_at ≡ none
  pub belongs :
      find (λ (m : Membership). m.user_id == target && m.group_id == group.id) db.memberships
      ≡ some member

includes-membership :
    (target gid : ℕ) (ms : List Membership)
    → includes gid (map (λ (m : Membership). m.group_id) (filter_by (is_of_user target) ms)) ≡ true
    → (m : Membership) × (find (λ (m : Membership). m.user_id == target && m.group_id == gid) ms
        ≡ some m)
unfolding includes find filter_by
includes-membership target gid [] h = absurd (ground arith)
includes-membership target gid (m ∷ ms) h =
    elim (Bool-cases (m.user_id == target && m.group_id == gid)) [
      | inl hit ↦ (m, ground arith)
      | inr miss ↦
          let (found, e) = includes-membership target gid ms (ground arith) in (found, ground arith)
    ]

is_caller-Administers :
    (wallets : List (ℕ × ℕ)) (target caller : ℕ) (db : Db)
    → is_caller_group_admin_of_user wallets caller target db ≡ true
    → Administers wallets target caller db
unfolding is_caller_group_admin_of_user
is_caller-Administers wallets target caller db h =
    let group_ids =
      map (λ (m : Membership). m.group_id) (filter_by (is_of_user target) db.memberships) in
    elim (Option-cases (lookup caller wallets)) [
      | inl e ↦ absurd (ground (arith, e))
      | inr (wallet, e) ↦
          let test = λ (g : Group).
            includes g.id group_ids && g.admin_wallet == wallet && is_none g.deleted_at in
          elim (Option-cases (find test db.groups)) [
            | inl f ↦ absurd (ground (arith, e, f))
            | inr (g, f) ↦
                let met : test g ≡ true = find-holds test db.groups f in
                let (m, belongs) =
                  includes-membership target g.id db.memberships (ground (arith, met)) in
                record {
                  group = g;
                  wallet = wallet;
                  member = m;
                  of_caller = e;
                  administers = ground (arith, met);
                  kept = ground (arith, met);
                  belongs = belongs;
                }
          ]
    ]

-- A trust score is given to the user, to an admin of the platform, and to the admin of a group, not
-- deleted, that the user belongs to; to nobody else.
pub read_trust_score-allowed :
    (wallets : List (ℕ × ℕ)) (users : List ℕ) (scores : Scores) (target caller : ℕ)
    (is_admin : Bool) (db : Db) {row : MemberTrustScore}
    → read_trust_score wallets users scores target caller is_admin db ≡ ok row
    → (caller ≡ target) ⊎ (is_admin ≡ true) ⊎ Administers wallets target caller db
unfolding read_trust_score get_trust_score
read_trust_score-allowed wallets users scores target caller is_admin db h =
    elim (Bool-cases (caller == target)) [
      | inl self ↦ inl (ground arith)
      | inr other ↦ elim (Bool-cases is_admin) [
        | inl platform ↦ inr (inl platform)
        | inr plain ↦ elim (Bool-cases (is_caller_group_admin_of_user wallets caller target db)) [
          | inl admin ↦ inr (inr (is_caller-Administers wallets target caller db admin))
          | inr stranger ↦ absurd (ground arith)
        ]
      ]
    ]
