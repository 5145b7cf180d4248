-- ===== src/BackupCodes.antt =====
-- ahjoorxmr/src/two-factor/two-factor.service.ts: the backup codes of a user. Codes and their hashes are
-- numbers; `compare` is bcrypt's. The mails that follow a use are left out.
pub mod Uses
use ahjoor_backend.Common.{
  ℕ, suc, zero, ◌+◌, ◌==◌, if◌then◌else◌, Bool, true, false, Option, none, some, List, [], ◌∷◌,
  ◌++◌, length, find, update_where, map, Result, ok, err, not_found, unauthorized,
}
use ahjoor_backend.Stellar.{or_else}

pub record User : Type 0 where
  pub id : ℕ
  pub two_fa_backup_codes : Option (List ℕ)
  pub two_fa_backup_codes_exhausted : Bool

-- The entries TWO_FA_BACKUP_CODE_USED of the audit log.
pub record CodeUse : Type 0 where
  pub user_id : ℕ
  pub code_index : ℕ
  pub ip_address : ℕ
  pub user_agent : ℕ
  pub remaining_codes : ℕ
  pub created_at : ℕ

pub record Accounts : Type 0 where
  pub users : List User
  pub audit_log : List CodeUse

abbrev pub is_user : ℕ → User → Bool
is_user user u = u.id == user

abbrev pub save_user : User → List User → List User
save_user u users = update_where (is_user u.id) (λ _. u) users

-- The random codes, of which the source makes ten, are an argument.
unfoldable pub generate_backup_codes : (ℕ → ℕ) → List ℕ → ℕ → Accounts → Result (Accounts × List ℕ)
generate_backup_codes hash codes user s = elim (find (is_user user) s.users) [
  | none ↦ err not_found
  | some u ↦
      let changed = record u {
        two_fa_backup_codes = some (map hash codes);
        two_fa_backup_codes_exhausted = false;
      } in
      ok (record s { users = save_user changed s.users }, codes)
]

-- The index of the first code that matches, counted from the index given.
unfoldable pub matched_index : (ℕ → ℕ → Bool) → ℕ → ℕ → List ℕ → Option ℕ
matched_index compare code i [] = none
matched_index compare code i (c ∷ cs) =
    let rest = matched_index compare code (suc i) cs in if compare code c then some i else rest

-- `codes.filter((_, i) => i !== matchedIndex)`.
unfoldable pub without_index : ℕ → ℕ → List ℕ → List ℕ
without_index matched i [] = []
without_index matched i (c ∷ cs) =
    let rest = without_index matched (suc i) cs in if i == matched then rest else c ∷ rest

abbrev pub codes_of : User → List ℕ
codes_of u = or_else u.two_fa_backup_codes []

abbrev pub used_code : ℕ → User → User
used_code matched u =
    let remaining = without_index matched 0 (codes_of u) in
    record u {
      two_fa_backup_codes = some remaining;
      two_fa_backup_codes_exhausted =
          if length remaining == 0 then true else u.two_fa_backup_codes_exhausted;
    }

unfoldable pub verify_backup_code : (ℕ → ℕ → Bool) → ℕ → ℕ → ℕ → ℕ → ℕ → Accounts → Result Accounts
unfolding matched_index without_index
verify_backup_code compare now user code ip agent s = elim (find (is_user user) s.users) [
  | none ↦ err not_found
  | some u ↦ elim (matched_index compare code 0 (codes_of u)) [
    | none ↦ err unauthorized
    | some matched ↦
        let remaining = without_index matched 0 (codes_of u) in
        ok (record {
          users = save_user (used_code matched u) s.users;
          audit_log =
              s.audit_log
              ++ record {
                user_id = user;
                code_index = matched;
                ip_address = ip;
                user_agent = agent;
                remaining_codes = length remaining;
                created_at = now;
              }
                ∷ [];
        })
  ]
]
