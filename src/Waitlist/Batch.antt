-- ===== src/Waitlist/Batch.antt =====
-- What the transaction of admitFromWaitlist writes when it commits.
use ahjoor_backend.Common.{
  ℕ, suc, ◌+◌, ◌-◌, ◌==◌, ◌≡◌, refl, ap, ◌∙◌, arith, leb, ◌||◌, true, List, [], ◌∷◌, ◌++◌, length,
  Option, none, some, Bool-cases, inl, inr, ok, err, Result, HttpError, all_of, filter_by, ==_refl,
  ◌⊎◌, ==_true, count_by, ◌≤◌, if◌then◌else◌,
}
use mathlib.Core.List.{append-nil, append_assoc}
use ahjoor_backend.Entities.{
  Group, Membership, WaitlistEntry, WaitlistStatus, Db, find_group, member_count, in_group,
  max_payout_order, next_order, has_id,
}
use ahjoor_backend.Memberships.{new_membership}
use ahjoor_backend.Waitlist.{
  admit_entry, admit_entries, admit_in_transaction, admission_limit, waits_in, save_entry,
  sort_by_position, take_rows,
}

-- The membership rows that the loop inserts, and the queue with its entries marked.
pub admitted_rows : (ℕ → ℕ) → ℕ → ℕ → List WaitlistEntry → List Membership
admitted_rows fresh gid order [] = []
admitted_rows fresh gid order (w ∷ ws) =
    new_membership (fresh order) gid w.user_id w.wallet_address (some order)
    ∷ admitted_rows fresh gid (order + 1) ws

pub mark_admitted : List WaitlistEntry → List WaitlistEntry → List WaitlistEntry
mark_admitted [] table = table
mark_admitted (w ∷ ws) table =
    mark_admitted ws (save_entry (record w { status = WaitlistStatus.admitted }) table)

pub record Admitted (fresh : ℕ → ℕ) (gid order : ℕ) (ws : List WaitlistEntry) (db db' : Db)
    : Type 0 where
  pub groups_kept : db'.groups ≡ db.groups
  pub grown : db'.memberships ≡ db.memberships ++ admitted_rows fresh gid order ws
  pub marked : db'.waitlist ≡ mark_admitted ws db.waitlist

admit_entry-step :
    (gid id order : ℕ) (w : WaitlistEntry) (db : Db) {db' : Db}
    → admit_entry gid id order w db ≡ ok db'
    → (db'.groups ≡ db.groups)
      × (db'.memberships
          ≡ db.memberships ++ new_membership id gid w.user_id w.wallet_address (some order) ∷ [])
      × (db'.waitlist ≡ save_entry (record w { status = WaitlistStatus.admitted }) db.waitlist)
unfolding admit_entry
admit_entry-step gid id order w db e = ground arith

Result-cases : (r : Result Db) → ((e : HttpError) × (r ≡ err e)) ⊎ ((db : Db) × (r ≡ ok db))
Result-cases (ok db) = inr (db, refl)
Result-cases (err e) = inl (e, refl)

admit_entries-Admitted :
    (fresh : ℕ → ℕ) (gid order : ℕ) (ws : List WaitlistEntry) (db : Db) {db' : Db}
    → admit_entries fresh gid order ws db ≡ ok db'
    → Admitted fresh gid order ws db db'
unfolding admit_entries admitted_rows mark_admitted
admit_entries-Admitted fresh gid order [] db e = record {
  groups_kept = ground arith;
  grown = ground (arith, append-nil db.memberships);
  marked = ground arith;
}
admit_entries-Admitted fresh gid order (w ∷ ws) db {db'} e =
    elim (Result-cases (admit_entry gid (fresh order) order w db)) [
      | inl (x, failed) ↦ absurd (ground arith)
      | inr (mid, done) ↦
          let (g, m, q) = admit_entry-step gid (fresh order) order w db done in
          let rest =
            admit_entries-Admitted fresh gid (order + 1) ws mid {db' = db'} (ground arith) in
          record {
            groups_kept = rest.groups_kept ∙ g;
            grown = ground (
              arith,
              rest.grown,
              m,
              append_assoc db.memberships
                  (new_membership (fresh order) gid w.user_id w.wallet_address (some order) ∷ [])
                  (admitted_rows fresh gid (order + 1) ws),
            );
            marked = rest.marked ∙ ap (mark_admitted ws) q;
          }
    ]

take-zero : (ws : List WaitlistEntry) → take_rows 0 ws ≡ []
unfolding take_rows
take-zero [] = refl
take-zero (w ∷ ws) = refl

abbrev pub queue_of : ℕ → Db → List WaitlistEntry
queue_of gid db = sort_by_position (filter_by (waits_in gid) db.waitlist)

abbrev pub limit_of : ℕ → Group → Option ℕ → Db → ℕ
limit_of gid g cap db = admission_limit (g.max_members - member_count gid db.memberships) cap

limit_zero :
    (gid : ℕ) (g : Group) (cap : Option ℕ) (db : Db)
    → (leb g.max_members (member_count gid db.memberships) || limit_of gid g cap db == 0) ≡ true
    → limit_of gid g cap db ≡ 0
limit_zero gid g none db h = ground arith
limit_zero gid g (some n) db h = ground arith

nobody-Admitted : (fresh : ℕ → ℕ) (gid order : ℕ) (db : Db) → Admitted fresh gid order [] db db
unfolding admit_entries
nobody-Admitted fresh gid order db = admit_entries-Admitted fresh gid order [] db refl

-- A committed admission into a group that exists: the first entries of the queue are written.
pub admit_in_transaction-Admitted :
    (fresh : ℕ → ℕ) (gid : ℕ) (cap : Option ℕ) (db : Db) {g : Group} {db' : Db}
    {es : List WaitlistEntry}
    → find_group gid db.groups ≡ some g
    → admit_in_transaction fresh gid cap db ≡ ok (db', es)
    → (es ≡ take_rows (limit_of gid g cap db) (queue_of gid db))
      × Admitted fresh gid (next_order (max_payout_order gid db.memberships)) es db db'
unfolding admit_in_transaction admitted_rows mark_admitted
admit_in_transaction-Admitted fresh gid cap db {g} {db'} {es} f e =
    elim (Bool-cases
      (leb g.max_members (member_count gid db.memberships) || limit_of gid g cap db == 0)) [
        | inl full ↦
            let nobody : es ≡ [] = ground arith in
            let kept : db' ≡ db = ground arith in
            (
              ground (arith, limit_zero gid g cap db full, take-zero (queue_of gid db)),
              rw (nobody, kept)
                  (nobody-Admitted fresh gid (next_order (max_payout_order gid db.memberships)) db),
            )
        | inr room ↦
            elim (Result-cases (
              admit_entries fresh gid (next_order (max_payout_order gid db.memberships))
                (take_rows (limit_of gid g cap db) (queue_of gid db)) db)) [
                  | inl (x, failed) ↦ absurd (ground arith)
                  | inr (d, done) ↦
                      let taken : es ≡ take_rows (limit_of gid g cap db) (queue_of gid db) =
                        ground arith in
                      let same : db' ≡ d = ground arith in
                      (
                        taken,
                        rw (taken, same)
                            (admit_entries-Admitted fresh gid
                              (next_order (max_payout_order gid db.memberships))
                              (take_rows (limit_of gid g cap db) (queue_of gid db)) db done),
                      )
                ]
      ]

pub admitted_rows-all :
    (fresh : ℕ → ℕ) (gid order : ℕ) (ws : List WaitlistEntry)
    → all_of (in_group gid) (admitted_rows fresh gid order ws) ≡ true
unfolding admitted_rows all_of
admitted_rows-all fresh gid order [] = refl
admitted_rows-all fresh gid order (w ∷ ws) =
    ground (arith, ==_refl gid, admitted_rows-all fresh gid (order + 1) ws)

pub length-admitted_rows :
    (fresh : ℕ → ℕ) (gid order : ℕ) (ws : List WaitlistEntry)
    → length (admitted_rows fresh gid order ws) ≡ length ws
unfolding admitted_rows
length-admitted_rows fresh gid order [] = refl
length-admitted_rows fresh gid order (w ∷ ws) =
    ap suc (length-admitted_rows fresh gid (order + 1) ws)

-- The new rows carry ids of the generator, each once.
pub admitted_rows-id :
    (fresh : ℕ → ℕ) (gid order i : ℕ) (ws : List WaitlistEntry)
    → 1 ≤ count_by (has_id i) (admitted_rows fresh gid order ws)
    → (n : ℕ) × (fresh n ≡ i)
unfolding admitted_rows count_by
admitted_rows-id fresh gid order i [] h = absurd (ground arith)
admitted_rows-id fresh gid order i (w ∷ ws) h = elim (Bool-cases (fresh order == i)) [
  | inl same ↦ (order, ==_true (fresh order) i same)
  | inr other ↦ admitted_rows-id fresh gid (order + 1) i ws (ground arith)
]

pub admitted_rows-once :
    (fresh : ℕ → ℕ) (gid order n : ℕ) (ws : List WaitlistEntry)
    → ((a b : ℕ) → fresh a ≡ fresh b → a ≡ b)
    → count_by (has_id (fresh n)) (admitted_rows fresh gid order ws)
      ≤ (if leb order n then 1 else 0)
unfolding admitted_rows count_by
admitted_rows-once fresh gid order n [] d = ground arith
admitted_rows-once fresh gid order n (w ∷ ws) d = elim (Bool-cases (fresh order == fresh n)) [
  | inl same ↦ ground (
    arith,
    same,
    d order n (==_true (fresh order) (fresh n) same),
    admitted_rows-once fresh gid (order + 1) n ws d,
  )
  | inr other ↦ ground (arith, other, admitted_rows-once fresh gid (order + 1) n ws d)
]

pub admit_in_transaction-missing :
    (fresh : ℕ → ℕ) (gid : ℕ) (cap : Option ℕ) (db : Db) {db' : Db} {es : List WaitlistEntry}
    → find_group gid db.groups ≡ none
    → admit_in_transaction fresh gid cap db ≡ ok (db', es)
    → db' ≡ db
unfolding admit_in_transaction
admit_in_transaction-missing fresh gid cap db f e = ground arith
