-- ===== src/Common/Rows.antt =====
-- Rows with a primary key: what DELETE and SELECT by the key do to the counts.
use ahjoor_backend.Common.Tests.{◌==◌, if◌then◌else◌, ==_refl, Bool-cases}
use ahjoor_backend.Common.Lists.{find, filter_by, count_by, update_where, count_by-update, All}
use Prim.Native.Nat.{ℕ, ◌+◌, ◌≤◌}
use mathlib.Core.Path.{◌≡◌, refl}
use mathlib.Core.Logic.{inl, inr}
use mathlib.Core.Bool.{Bool, true, false, not}
use mathlib.Core.Option.{some}
use mathlib.Core.List.{List, [], ◌∷◌, ◌++◌}
use native.Mathlib.Omega.{arith}

module _ {ℓ} {A : Type ℓ} (key : A → ℕ) where
  abbrev pub is_row : A → A → Bool
  is_row a x = key x == key a

  -- No two rows have one key.
  abbrev pub HasUniqueKeys : List A → Type 0
  HasUniqueKeys xs = (i : ℕ) → count_by (λ x. key x == i) xs ≤ 1

  find-counts :
      (q : A → Bool) (xs : List A) {m : A}
      → find q xs ≡ some m
      → 1 ≤ count_by (λ x. key x == key m) xs
  unfolding find count_by
  find-counts q [] e = ground arith
  find-counts q (y ∷ ys) {m} e = ground (arith, ==_refl (key m), find-counts q ys {m = m})

  All-absent :
      (m : A) (xs : List A)
      → count_by (λ x. key x == key m) xs ≡ 0
      → All (λ x. key x ≡ key m → x ≡ m) xs
  unfolding count_by
  All-absent m [] e = tt
  All-absent m (y ∷ ys) e = (λ k. absurd (ground arith), All-absent m ys (ground arith))

  -- Every row with the key of a row that a SELECT found is that row.
  pub All-unique :
      (q : A → Bool) (xs : List A) {m : A}
      → find q xs ≡ some m
      → HasUniqueKeys xs
      → All (λ x. key x ≡ key m → x ≡ m) xs
  unfolding find count_by
  All-unique q [] e u = absurd (ground arith)
  All-unique q (y ∷ ys) {m} e u = elim (Bool-cases (q y)) [
    | inl hit ↦
        let same : y ≡ m = ground arith in
        (λ k. same, All-absent m ys (ground (arith, same, u (key m), ==_refl (key m))))
    | inr miss ↦ (
      λ k. absurd (ground (arith, u (key m), find-counts q ys {m = m})),
      All-unique q ys (ground arith) (λ i. ground (arith, u i)),
    )
  ]

  delete_absent :
      (i : ℕ) (xs : List A)
      → count_by (λ x. key x == i) xs ≡ 0
      → filter_by (λ x. not (key x == i)) xs ≡ xs
  unfolding filter_by count_by
  delete_absent i [] e = refl
  delete_absent i (y ∷ ys) e = ground (arith, delete_absent i ys)

  -- DELETE by the key of a row that a SELECT found takes exactly that row out of every count.
  pub count-delete :
      (p q : A → Bool) (xs : List A) {m : A}
      → find q xs ≡ some m
      → HasUniqueKeys xs
      → count_by p (filter_by (λ x. not (key x == key m)) xs) + (if p m then 1 else 0)
        ≡ count_by p xs
  unfolding find filter_by count_by
  count-delete p q [] e u = ground arith
  count-delete p q (y ∷ ys) {m} e u = elim (Bool-cases (q y)) [
    | inl hit ↦ ground (arith, ==_refl (key y), u (key y), delete_absent (key y) ys)
    | inr miss ↦ ground (
      arith,
      u (key m),
      find-counts q ys {m = m},
      count-delete p q ys {m = m} (ground arith) (λ i. ground (arith, u i)),
    )
  ]

  -- `save(row)`: an UPDATE by the key of a row that a SELECT found.
  abbrev pub save_row : A → List A → List A
  save_row r = update_where (λ x. key x == key r) (λ _. r)

  absent_unchanged :
      (i : ℕ) (r : A) (xs : List A)
      → count_by (λ x. key x == i) xs ≡ 0
      → update_where (λ x. key x == i) (λ _. r) xs ≡ xs
  unfolding update_where count_by
  absent_unchanged i r [] e = refl
  absent_unchanged i r (y ∷ ys) e = ground (arith, absent_unchanged i r ys)

  pub find-save :
      (p : A → Bool) (xs : List A) {m : A} (r : A)
      → find p xs ≡ some m
      → key r ≡ key m
      → p r ≡ true
      → HasUniqueKeys xs
      → find p (save_row r xs) ≡ some r
  unfolding find update_where count_by
  find-save p [] r e k h u = ground arith
  find-save p (y ∷ ys) {m} r e k h u = elim (Bool-cases (p y)) [
    | inl hit ↦ ground (arith, ==_refl (key y))
    | inr miss ↦ ground (
      arith,
      u (key m),
      find-counts p ys {m = m},
      find-save p ys {m = m} r (ground arith) k h (λ i. ground (arith, u i)),
    )
  ]

  -- A SELECT that would take neither the old row nor the new one is not touched by the save.
  pub find-save_other :
      (p q : A → Bool) (xs : List A) {m : A} (r : A)
      → find q xs ≡ some m
      → key r ≡ key m
      → p m ≡ false
      → p r ≡ false
      → HasUniqueKeys xs
      → find p (save_row r xs) ≡ find p xs
  unfolding find update_where count_by
  find-save_other p q [] r e k h g u = refl
  find-save_other p q (y ∷ ys) {m} r e k h g u = elim (Bool-cases (q y)) [
    | inl hit ↦ ground (arith, u (key m), ==_refl (key m), absent_unchanged (key r) r ys)
    | inr miss ↦ ground (
      arith,
      u (key m),
      find-counts q ys {m = m},
      find-save_other p q ys {m = m} r (ground arith) k h g (λ i. ground (arith, u i)),
    )
  ]

  pub count-save :
      (p q : A → Bool) (xs : List A) {m : A} (r : A)
      → find q xs ≡ some m
      → key r ≡ key m
      → HasUniqueKeys xs
      → count_by p (save_row r xs) + (if p m then 1 else 0) ≡ count_by p xs + (if p r then 1 else 0)
  unfolding find update_where count_by
  count-save p q [] r e k u = ground arith
  count-save p q (y ∷ ys) {m} r e k u = elim (Bool-cases (q y)) [
    | inl hit ↦ ground (arith, u (key m), ==_refl (key m), absent_unchanged (key r) r ys)
    | inr miss ↦ ground (
      arith,
      u (key m),
      find-counts q ys {m = m},
      count-save p q ys {m = m} r (ground arith) k (λ i. ground (arith, u i)),
    )
  ]

  -- Saving a changed row and then the old one again restores the table.
  pub save_back :
      (q : A → Bool) (xs : List A) {m : A} (r : A)
      → find q xs ≡ some m
      → key r ≡ key m
      → HasUniqueKeys xs
      → save_row m (save_row r xs) ≡ xs
  unfolding find update_where count_by
  save_back q [] r e k u = refl
  save_back q (y ∷ ys) {m} r e k u = elim (Bool-cases (q y)) [
    | inl hit ↦ ground (
      arith,
      u (key m),
      ==_refl (key m),
      absent_unchanged (key r) r ys,
      absent_unchanged (key m) m ys,
    )
    | inr miss ↦ ground (
      arith,
      u (key m),
      find-counts q ys {m = m},
      save_back q ys {m = m} r (ground arith) k (λ i. ground (arith, u i)),
    )
  ]

  pub save_same :
      (q : A → Bool) (xs : List A) {m : A}
      → find q xs ≡ some m
      → HasUniqueKeys xs
      → save_row m xs ≡ xs
  unfolding find update_where count_by
  save_same q [] e u = refl
  save_same q (y ∷ ys) {m} e u = elim (Bool-cases (q y)) [
    | inl hit ↦ ground (arith, u (key m), ==_refl (key m), absent_unchanged (key m) m ys)
    | inr miss ↦ ground (
      arith,
      u (key m),
      find-counts q ys {m = m},
      save_same q ys {m = m} (ground arith) (λ i. ground (arith, u i)),
    )
  ]

  -- Saving the row that was appended last, under a fresh key.
  pub save_last :
      (xs : List A) (t r : A)
      → count_by (λ x. key x == key t) xs ≡ 0
      → key r ≡ key t
      → save_row r (xs ++ t ∷ []) ≡ xs ++ r ∷ []
  unfolding update_where count_by
  save_last [] t r e k = ground (arith, ==_refl (key t))
  save_last (x ∷ xs) t r e k = ground (arith, save_last xs t r)

  pub save-keys : (xs : List A) (r : A) → HasUniqueKeys xs → HasUniqueKeys (save_row r xs)
  save-keys xs r keys i =
      rw (count_by-update (λ x. key x == i) (λ x. key x == key r) (λ _. r) xs (λ x h. ground arith))
        (keys i)
