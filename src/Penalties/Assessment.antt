-- ===== src/Penalties/Assessment.antt =====
-- PenaltyService.assessPenaltiesForRound: nobody is fined twice for a round.
use ahjoor_backend.Common.{
  ℕ, ◌+◌, ◌≤◌, ◌≡◌, refl, ap, sym, ◌∙◌, arith, Bool, true, false, List, [], ◌∷◌, ◌++◌, find,
  count_by, filter_by, ok, Option-cases, Bool-cases, inl, inr, ==_refl, count_by-append,
  find-none-count, All, subst,
}
use ahjoor_backend.Finance.{Penalty}
use ahjoor_backend.Entities.{Group, Membership, Db, in_group, find_group, is_some}
use ahjoor_backend.Stellar.{Outside}
use ahjoor_backend.Penalties.{
  is_fine, is_covered, fine_member, new_penalty, assess_members, assess_penalties_for_round,
}

-- At most one penalty for each user, group and round.
abbrev pub HasOneFine : Db → Type 0
HasOneFine db = (uid gid round : ℕ) → count_by (is_fine uid gid round) db.penalties ≤ 1

find-append_some :
    (p : Penalty → Bool) (xs ys : List Penalty)
    → is_some (find p xs) ≡ true
    → is_some (find p (xs ++ ys)) ≡ true
unfolding find
find-append_some p [] ys e = ground arith
find-append_some p (x ∷ xs) ys e = ground (arith, find-append_some p xs ys)

module _ (out : Outside) (fresh : ℕ → ℕ) (due_at : ℕ) (group : Group) (round : ℕ) where
  fine_member-HasOneFine :
      (uid : ℕ) (db : Db)
      → is_covered group.id round db uid ≡ false
      → HasOneFine db
      → HasOneFine (fine_member out fresh due_at group round uid db)
  unfolding is_covered fine_member count_by
  fine_member-HasOneFine uid db free one u g r =
      elim (Option-cases (find (is_fine uid group.id round) db.penalties)) [
        | inr (p, f) ↦ absurd (ground arith)
        | inl absent ↦ ground (
          arith,
          one u g r,
          count_by-append (is_fine u g r) db.penalties
              (new_penalty out (fresh uid) due_at group uid round ∷ []),
          find-none-count (is_fine uid group.id round) db.penalties absent,
        )
      ]

  assess_members-HasOneFine :
      (ms : List Membership) (db : Db)
      → HasOneFine db
      → HasOneFine (assess_members out fresh due_at group round ms db).0
  unfolding assess_members
  assess_members-HasOneFine [] db one = one
  assess_members-HasOneFine (m ∷ ms) db one =
      elim (Bool-cases (is_covered group.id round db m.user_id)) [
        | inl covered ↦ rw (covered, assess_members) (assess_members-HasOneFine ms db one)
        | inr free ↦
            rw (free, assess_members)
              (assess_members-HasOneFine ms (fine_member out fresh due_at group round m.user_id db)
                (fine_member-HasOneFine m.user_id db free one))
      ]

  fine_member-covers :
      (uid v : ℕ) (db : Db)
      → is_covered group.id round db v ≡ true
      → is_covered group.id round (fine_member out fresh due_at group round uid db) v ≡ true
  unfolding is_covered fine_member
  fine_member-covers uid v db c = ground (
    arith,
    find-append_some (is_fine v group.id round) db.penalties
        (new_penalty out (fresh uid) due_at group uid round ∷ []),
  )

  find-last :
      (p : Penalty → Bool) (xs : List Penalty) (x : Penalty)
      → p x ≡ true
      → is_some (find p (xs ++ x ∷ [])) ≡ true
  unfolding find
  find-last p [] x h = ground arith
  find-last p (y ∷ ys) x h = ground (arith, find-last p ys x h)

  fine_member-covered :
      (uid : ℕ) (db : Db)
      → is_covered group.id round (fine_member out fresh due_at group round uid db) uid ≡ true
  unfolding is_covered fine_member
  fine_member-covered uid db = ground (
    arith,
    find-last (is_fine uid group.id round) db.penalties
        (new_penalty out (fresh uid) due_at group uid round)
        (ground (arith, ==_refl uid, ==_refl group.id, ==_refl round)),
  )

  assess_members-keeps :
      (v : ℕ) (ms : List Membership) (db : Db)
      → is_covered group.id round db v ≡ true
      → is_covered group.id round (assess_members out fresh due_at group round ms db).0 v ≡ true
  unfolding assess_members
  assess_members-keeps v [] db c = c
  assess_members-keeps v (m ∷ ms) db c =
      elim (Bool-cases (is_covered group.id round db m.user_id)) [
        | inl covered ↦ rw (covered, assess_members) (assess_members-keeps v ms db c)
        | inr free ↦
            rw (free, assess_members)
              (assess_members-keeps v ms (fine_member out fresh due_at group round m.user_id db)
                (fine_member-covers m.user_id v db c))
      ]

  abbrev Covers : List Membership → Db → Type 0
  Covers ms db = All (λ (m : Membership). is_covered group.id round db m.user_id ≡ true) ms

  assess_members-Covers :
      (ms : List Membership) (db : Db)
      → Covers ms (assess_members out fresh due_at group round ms db).0
  unfolding assess_members
  assess_members-Covers [] db = tt
  assess_members-Covers (m ∷ ms) db = elim (Bool-cases (is_covered group.id round db m.user_id)) [
    | inl covered ↦
        let same : (assess_members out fresh due_at group round (m ∷ ms) db).0
            ≡ (assess_members out fresh due_at group round ms db).0 =
          ground (arith, covered) in
        subst (Covers (m ∷ ms)) (sym same)
          (assess_members-keeps m.user_id ms db covered, assess_members-Covers ms db)
    | inr free ↦
        let fined : Db = fine_member out fresh due_at group round m.user_id db in
        let same : (assess_members out fresh due_at group round (m ∷ ms) db).0
            ≡ (assess_members out fresh due_at group round ms fined).0 =
          ground (arith, free) in
        subst (Covers (m ∷ ms)) (sym same) (
          assess_members-keeps m.user_id ms fined (fine_member-covered m.user_id db),
          assess_members-Covers ms fined,
        )
  ]

  assess_members-tables :
      (ms : List Membership) (db : Db)
      → let db' = (assess_members out fresh due_at group round ms db).0 in
        (db'.groups ≡ db.groups) × (db'.memberships ≡ db.memberships)
  unfolding assess_members fine_member
  assess_members-tables [] db = (refl, refl)
  assess_members-tables (m ∷ ms) db = elim (Bool-cases (is_covered group.id round db m.user_id)) [
    | inl covered ↦ ground (arith, covered, assess_members-tables ms db)
    | inr free ↦ ground (
      arith,
      free,
      assess_members-tables ms (fine_member out fresh due_at group round m.user_id db),
    )
  ]

  assess_members-nothing :
      (ms : List Membership) (db : Db)
      → All (λ (m : Membership). is_covered group.id round db m.user_id ≡ true) ms
      → assess_members out fresh due_at group round ms db ≡ (db, 0)
  unfolding assess_members
  assess_members-nothing [] db all = refl
  assess_members-nothing (m ∷ ms) db all =
      rw (all.0, assess_members) (assess_members-nothing ms db all.1)

-- An assessment leaves at most one penalty for each user, group and round, if there was one at most.
pub assess-HasOneFine :
    (out : Outside) (fresh : ℕ → ℕ) (now gid round : ℕ) (db : Db)
    → HasOneFine db
    → HasOneFine (assess_penalties_for_round out fresh now gid round db).0
unfolding assess_penalties_for_round
assess-HasOneFine out fresh now gid round db one = elim (Option-cases (find_group gid db.groups)) [
  | inl missing ↦ rw (missing, assess_penalties_for_round) one
  | inr (g, f) ↦
      rw (f, assess_penalties_for_round)
        (assess_members-HasOneFine out fresh (now + 604800000) g round
          (filter_by (in_group gid) db.memberships) db one)
]

-- A second assessment of the penalties of a round, at any time, fines nobody and changes nothing.
pub assess_once :
    (out : Outside) (fresh fresh' : ℕ → ℕ) (now now' gid round n : ℕ) (db : Db) {db' : Db}
    → assess_penalties_for_round out fresh now gid round db ≡ (db', ok n)
    → assess_penalties_for_round out fresh' now' gid round db' ≡ (db', ok 0)
unfolding assess_penalties_for_round
assess_once out fresh fresh' now now' gid round n db {db'} e =
    elim (Option-cases (find_group gid db.groups)) [
      | inl missing ↦ absurd (ground arith)
      | inr (g, f) ↦
          let ms : List Membership = filter_by (in_group gid) db.memberships in
          let same : db' ≡ (assess_members out fresh (now + 604800000) g round ms db).0 =
            ground (arith, f) in
          let (groups, members) = assess_members-tables out fresh (now + 604800000) g round ms db in
          let again : assess_members out fresh' (now' + 604800000) g round ms db' ≡ (db', 0) =
            assess_members-nothing out fresh' (now' + 604800000) g round ms db' (
              subst (Covers out fresh (now + 604800000) g round ms) (sym same)
                (assess_members-Covers out fresh (now + 604800000) g round ms db)) in
          ground (
            arith,
            ap (λ (d : Db). find_group gid d.groups) same ∙ ap (find_group gid) groups ∙ f,
            ap (λ (d : Db). filter_by (in_group gid) d.memberships) same
                ∙ ap (filter_by (in_group gid)) members,
            again,
          )
    ]
