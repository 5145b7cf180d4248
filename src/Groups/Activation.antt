-- ===== src/Groups/Activation.antt =====
-- GroupsService.activateGroup: the payout orders with which a group starts.
use ahjoor_backend.Common.{
  ℕ, ◌==◌, ◌≤◌, ◌≡◌, refl, ap, sym, ◌∙◌, arith, ltb, not, ◌||◌, true, Option, none, some, List,
  subst, ok, err, Option-cases, Bool-cases, inl, inr, HttpError, HasUniqueKeys, find-save,
  find-holds, save-keys, ◌⊎◌,
}
use ahjoor_backend.Entities.{
  Group, GroupStatus, Membership, Db, is_sequential, find_group, member_count, is_some, is_group,
  is_pending, save_group, HasGroupKeys,
}
use ahjoor_backend.Memberships.Orders.{IsSequence}
use ahjoor_backend.Groups.{order_members, start_group, activate_group}
use ahjoor_backend.Groups.StartOrders.{order_members-IsSequence}

-- What a successful `activateGroup` has checked and written.
pub record Activated (gid wallet : ℕ) (db db' : Db) (g' : Group) : Type 0 where
  pub group : Group
  pub found : find_group gid db.groups ≡ some group
  pub by_admin : group.admin_wallet ≡ wallet
  pub was_pending : group.status ≡ GroupStatus.pending
  pub enough : group.min_members ≤ member_count gid db.memberships
  pub stored : find_group gid db'.groups ≡ some g'
  pub running : g'.status ≡ GroupStatus.active
  pub first_round : g'.current_round ≡ 1
  pub deployed : is_some g'.contract_address ≡ true
  pub sequence : IsSequence gid db'.memberships

-- Saving a group twice, as the activation does.
save_group-twice :
    (gid : ℕ) (gs : List Group) {g : Group} (a b : Group)
    → find_group gid gs ≡ some g
    → HasUniqueKeys (λ (x : Group). x.id) gs
    → a.id ≡ g.id
    → is_group gid a ≡ true
    → b.id ≡ g.id
    → is_group gid b ≡ true
    → find_group gid (save_group b (save_group a gs)) ≡ some b
save_group-twice gid gs {g} a b f keys ia ga ib gb =
    find-save (λ (x : Group). x.id) (is_group gid) (save_group a gs) {m = a} b
      (find-save (λ (x : Group). x.id) (is_group gid) gs a f ia ga keys) (ib ∙ sym ia) gb
      (save-keys (λ (x : Group). x.id) gs a keys)

start_group-ok :
    (choose : ℕ → ℕ) (contract : Option ℕ) (gid : ℕ) (g : Group) (db : Db) {db' : Db} {g' : Group}
    → start_group choose contract gid g db ≡ (db', ok g')
    → (ms : List Membership) × (a : ℕ) × (order_members choose g.payout_order_strategy gid
          db.memberships
        ≡ some ms)
      × (db'.memberships ≡ ms)
      × (g'
          ≡ record g { status = GroupStatus.active; current_round = 1; contract_address = some a })
      × (db'.groups
          ≡ save_group g'
              (save_group (record g { status = GroupStatus.active; current_round = 1 }) db.groups))
unfolding start_group
start_group-ok choose none gid g db e = absurd (ground arith)
start_group-ok choose (some a) gid g db e =
    elim (Option-cases (order_members choose g.payout_order_strategy gid db.memberships)) [
      | inl refused ↦ absurd (ground arith)
      | inr (ms, f) ↦ (ms, a, f, ground arith, ground arith, ground arith)
    ]

-- A successful activation is by the admin of a pending group with enough members; the group is
-- then active, in round 1, with a contract, and its payout orders are 0, 1, …, n - 1, each held
-- once (a SEQUENTIAL group had such orders before; group ids are unique).
pub activate_group-Activated :
    (choose : ℕ → ℕ) (contract : Option ℕ) (gid wallet : ℕ) (db : Db) {db' : Db} {g g' : Group}
    → HasGroupKeys db
    → find_group gid db.groups ≡ some g
    → (is_sequential g.payout_order_strategy ≡ true → IsSequence gid db.memberships)
    → activate_group choose contract gid wallet db ≡ (db', ok g')
    → Activated gid wallet db db' g'
unfolding activate_group
activate_group-Activated choose contract gid wallet db {db'} {g} {g'} keys f given e =
    let (ms, a, ordered, members, row, groups) =
      start_group-ok choose contract gid g db {db' = db'} {g' = g'} (ground arith) in
    let key : is_group gid g ≡ true = find-holds (is_group gid) db.groups f in
    let started : Group = record g { status = GroupStatus.active; current_round = 1 } in
    record {
      group = g;
      found = f;
      by_admin = ground arith;
      was_pending = ground arith;
      enough = ground arith;
      stored =
          ap (find_group gid) groups
          ∙ save_group-twice gid db.groups started g' f keys refl key (ap (λ (x : Group). x.id) row)
              (ground (arith, row, key));
      running = ground (arith, row);
      first_round = ground (arith, row);
      deployed = ground (arith, row);
      sequence = subst (IsSequence gid) (sym members) (
          order_members-IsSequence choose g.payout_order_strategy gid db.memberships ordered given);
    }

start_group-err :
    (choose : ℕ → ℕ) (contract : Option ℕ) (gid : ℕ) (g : Group) (db : Db) {db' : Db}
    {x : HttpError}
    → start_group choose contract gid g db ≡ (db', err x)
    → (db' ≡ db)
      ⊎ (db'.groups
          ≡ save_group
              (record g { status = GroupStatus.pending; current_round = 0 })
              (save_group (record g { status = GroupStatus.active; current_round = 1 }) db.groups))
unfolding start_group
start_group-err choose (some a) gid g db e =
    elim (Option-cases (order_members choose g.payout_order_strategy gid db.memberships)) [
      | inl refused ↦ inl (ground arith)
      | inr (ms, f) ↦ absurd (ground arith)
    ]
start_group-err choose none gid g db e =
    elim (Option-cases (order_members choose g.payout_order_strategy gid db.memberships)) [
      | inl refused ↦ inl (ground arith)
      | inr (ms, f) ↦ inr (ground arith)
    ]

-- An activation that fails, also in its deployment, leaves the group in the status that it had;
-- group ids are unique.
activate_group-rolled_back :
    (choose : ℕ → ℕ) (contract : Option ℕ) (gid wallet : ℕ) (db : Db) {db' : Db} {g : Group}
    {x : HttpError}
    → HasGroupKeys db
    → find_group gid db.groups ≡ some g
    → activate_group choose contract gid wallet db ≡ (db', err x)
    → (after : Group) × (find_group gid db'.groups ≡ some after) × (after.status ≡ g.status)
unfolding activate_group
activate_group-rolled_back choose contract gid wallet db {db'} {g} {x} keys f e =
    elim (Bool-cases (
      not (g.admin_wallet == wallet)
      || not (is_pending g.status)
      || ltb (member_count gid db.memberships) g.min_members)) [
        | inl refused ↦ (g, ground arith, refl)
        | inr begun ↦
            elim (start_group-err choose contract gid g db {db' = db'} {x = x} (ground arith)) [
              | inl same ↦ (g, ground (arith, same), refl)
              | inr groups ↦
                  let key : is_group gid g ≡ true = find-holds (is_group gid) db.groups f in
                  let back : Group = record g { status = GroupStatus.pending; current_round = 0 } in
                  let started : Group = record g {
                    status = GroupStatus.active;
                    current_round = 1;
                  } in
                  (
                    back,
                    ap (find_group gid) groups
                        ∙ save_group-twice gid db.groups started back f keys refl key refl key,
                    ground arith,
                  )
            ]
      ]
