-- ===== src/BackupCodes/Uses.antt =====
-- A use takes one code away.
use ahjoor_backend.Common.{
  ℕ, suc, ◌≤◌, ◌≡◌, refl, arith, Bool, none, some, List, [], ◌∷◌, length, find, ok, Option-cases,
  Bool-cases, inl, inr, find-holds, find-update, ==_refl,
}
use ahjoor_backend.BackupCodes.{
  used_code, Accounts, is_user, save_user, matched_index, without_index, codes_of,
  verify_backup_code,
}

without_index-past :
    (matched i : ℕ) (cs : List ℕ) → suc matched ≤ i → without_index matched i cs ≡ cs
unfolding without_index
without_index-past matched i [] le = refl
without_index-past matched i (c ∷ cs) le =
    ground (arith, without_index-past matched (suc i) cs (omega arith))

matched_index-from :
    (compare : ℕ → ℕ → Bool) (code i : ℕ) (cs : List ℕ) {m : ℕ}
    → matched_index compare code i cs ≡ some m
    → i ≤ m
unfolding matched_index
matched_index-from compare code i [] e = absurd (ground (arith, e))
matched_index-from compare code i (c ∷ cs) {m} e = elim (Bool-cases (compare code c)) [
  | inl hit ↦ ground (arith, e, hit)
  | inr miss ↦
      let later = matched_index-from compare code (suc i) cs {m = m} (ground (arith, e, miss)) in
      omega (arith, later)
]

length-without_index :
    (compare : ℕ → ℕ → Bool) (code i : ℕ) (cs : List ℕ) {m : ℕ}
    → matched_index compare code i cs ≡ some m
    → suc (length (without_index m i cs)) ≡ length cs
unfolding matched_index without_index
length-without_index compare code i [] e = absurd (ground (arith, e))
length-without_index compare code i (c ∷ cs) {m} e = elim (Bool-cases (compare code c)) [
  | inl hit ↦ ground (arith, e, hit, without_index-past m (suc i) cs)
  | inr miss ↦
      let rest : matched_index compare code (suc i) cs ≡ some m = ground (arith, e, miss) in
      ground (
        arith,
        matched_index-from compare code (suc i) cs {m = m} rest,
        length-without_index compare code (suc i) cs {m = m} rest,
      )
]

-- The number of codes that a user has left.
abbrev codes_left : ℕ → Accounts → ℕ
codes_left user s = elim (find (is_user user) s.users) [ none ↦ 0 | some u ↦ length (codes_of u) ]

-- A code that is accepted was one of those left, and there is one less afterwards.
verify_backup_code-left :
    (compare : ℕ → ℕ → Bool) (now user code ip agent : ℕ) (s : Accounts) {t : Accounts}
    → verify_backup_code compare now user code ip agent s ≡ ok t
    → suc (codes_left user t) ≡ codes_left user s
unfolding verify_backup_code
verify_backup_code-left compare now user code ip agent s {t} e =
    elim (Option-cases (find (is_user user) s.users)) [
      | inl missing ↦ absurd (ground (arith, e, missing))
      | inr (u, at) ↦ elim (Option-cases (matched_index compare code 0 (codes_of u))) [
        | inl wrong ↦ absurd (ground (arith, e, at, wrong))
        | inr (m, hit) ↦
            let own = find-holds (is_user user) s.users at in
            let lost = length-without_index compare code 0 (codes_of u) {m = m} hit in
            let changed = used_code m u in
            let stored =
              find-update (is_user user) (is_user u.id) (λ _. changed) s.users
                (λ x h. ground (arith, own, h)) at in
            let saved : t.users ≡ save_user changed s.users = ground (arith, e, at, hit) in
            let now_left : find (is_user user) t.users ≡ some changed =
              rw saved (ground (arith, stored, ==_refl u.id)) in
            ground (arith, now_left, at, lost)
      ]
    ]
