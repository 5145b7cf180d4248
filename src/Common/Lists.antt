-- ===== src/Common/Lists.antt =====
-- Tables as lists of rows: the reads, writes and counts that a repository makes by a condition.
use Prim.Native.Nat.{ℕ, zero, suc, ◌+◌, ◌-◌, ◌≤◌, min}
use mathlib.Core.Logic.{inl, inr}
use mathlib.Core.Path.{ap, sym, ◌∙◌, ◌≡◌, subst, refl}
use mathlib.Core.Bool.{Bool, true, false, ◌&&◌}
use mathlib.Core.Option.{Option, none, some}
use mathlib.Core.List.{List, [], ◌∷◌, ◌++◌}
use native.Mathlib.Omega.{arith}
use native.Mathlib.Nat.{zero-add, suc-add}
use ahjoor_backend.Common.Tests.{if◌then◌else◌, Bool-cases}

module _ {ℓ} {A : Type ℓ} where
  abbrev pub length : List A → ℕ
  length [] = 0
  length (x ∷ xs) = suc (length xs)

  abbrev pub take : ℕ → List A → List A
  take n [] = []
  take zero (x ∷ xs) = []
  take (suc n) (x ∷ xs) = x ∷ take n xs

  abbrev pub drop : ℕ → List A → List A
  drop n [] = []
  drop zero (x ∷ xs) = x ∷ xs
  drop (suc n) (x ∷ xs) = drop n xs

  pub length-drop : (n : ℕ) (xs : List A) → length (drop n xs) ≡ length xs - n
  length-drop n [] = omega arith
  length-drop zero (x ∷ xs) = omega arith
  length-drop (suc n) (x ∷ xs) = omega (arith, length-drop n xs)

  pub length-take : (n : ℕ) (xs : List A) → length (take n xs) ≡ min n (length xs)
  length-take n [] = omega arith
  length-take zero (x ∷ xs) = omega arith
  length-take (suc n) (x ∷ xs) = omega (arith, length-take n xs)

  pub take-drop : (n : ℕ) (xs : List A) → take n xs ++ drop n xs ≡ xs
  take-drop n [] = refl
  take-drop zero (x ∷ xs) = refl
  take-drop (suc n) (x ∷ xs) = ap (λ ys. x ∷ ys) (take-drop n xs)

  pub empty-of-length : (xs : List A) → length xs ≡ 0 → [] ≡ xs
  empty-of-length [] e = refl
  empty-of-length (x ∷ xs) e = absurd (omega arith)

  pub drop-drop : (m n : ℕ) (xs : List A) → drop n (drop m xs) ≡ drop (m + n) xs
  drop-drop m n [] = refl
  drop-drop zero n (x ∷ xs) = ap (λ k. drop k (x ∷ xs)) (sym (zero-add n))
  drop-drop (suc m) n (x ∷ xs) = drop-drop m n xs ∙ ap (λ k. drop k (x ∷ xs)) (sym (suc-add m n))

  -- The first row that meets a condition.
  unfoldable pub find : (A → Bool) → List A → Option A
  find p [] = none
  find p (x ∷ xs) = if p x then some x else find p xs

  unfoldable pub filter_by : (A → Bool) → List A → List A
  filter_by p [] = []
  filter_by p (x ∷ xs) = let rest = filter_by p xs in if p x then x ∷ rest else rest

  unfoldable pub count_by : (A → Bool) → List A → ℕ
  count_by p [] = 0
  count_by p (x ∷ xs) = let rest = count_by p xs in if p x then suc rest else rest

  -- An UPDATE: every row that meets the condition is replaced.
  unfoldable pub update_where : (A → Bool) → (A → A) → List A → List A
  update_where p f [] = []
  update_where p f (x ∷ xs) = (if p x then f x else x) ∷ update_where p f xs

  unfoldable pub all_of : (A → Bool) → List A → Bool
  all_of p [] = true
  all_of p (x ∷ xs) = p x && all_of p xs

  pub length-append : (xs ys : List A) → length (xs ++ ys) ≡ length xs + length ys
  length-append [] ys = omega arith
  length-append (x ∷ xs) ys = omega (arith, length-append xs ys)

  pub find-holds : (p : A → Bool) (xs : List A) {x : A} → find p xs ≡ some x → p x ≡ true
  unfolding find
  find-holds p [] h = ground arith
  find-holds p (y ∷ ys) {x} h = ground (arith, find-holds p ys {x = x})

  pub find-none-count : (p : A → Bool) (xs : List A) → find p xs ≡ none → count_by p xs ≡ 0
  unfolding find count_by
  find-none-count p [] h = refl
  find-none-count p (y ∷ ys) h = ground (arith, find-none-count p ys)

  pub find-append-none :
      (p : A → Bool) (xs ys : List A) → find p xs ≡ none → find p (xs ++ ys) ≡ find p ys
  unfolding find
  find-append-none p [] ys e = refl
  find-append-none p (x ∷ xs) ys e = ground (arith, find-append-none p xs ys)

  pub find-not-counted :
      (p q : A → Bool) (xs : List A) {x : A} → find p xs ≡ some x → count_by q xs ≡ 0 → q x ≡ false
  unfolding find count_by
  find-not-counted p q [] e z = ground arith
  find-not-counted p q (y ∷ ys) {x} e z = ground (arith, find-not-counted p q ys {x = x})

  pub count_by-append :
      (p : A → Bool) (xs ys : List A) → count_by p (xs ++ ys) ≡ count_by p xs + count_by p ys
  unfolding count_by
  count_by-append p [] ys = omega arith
  count_by-append p (x ∷ xs) ys = ground (arith, count_by-append p xs ys)

  -- An UPDATE that leaves the counted condition alone does not change the count.
  pub count_by-update :
      (p q : A → Bool) (f : A → A) (xs : List A)
      → ((x : A) → q x ≡ true → p (f x) ≡ p x)
      → count_by p (update_where q f xs) ≡ count_by p xs
  unfolding count_by update_where
  count_by-update p q f [] h = refl
  count_by-update p q f (x ∷ xs) h = ground (arith, h x, count_by-update p q f xs h)

  -- An UPDATE after which no row that it touches meets the condition, as no other row does.
  pub count_by-update_none :
      (p q : A → Bool) (f : A → A) (xs : List A)
      → ((x : A) → q x ≡ true → p (f x) ≡ false)
      → ((x : A) → q x ≡ false → p x ≡ false)
      → count_by p (update_where q f xs) ≡ 0
  unfolding count_by update_where
  count_by-update_none p q f [] h k = refl
  count_by-update_none p q f (x ∷ xs) h k =
      ground (arith, h x, k x, count_by-update_none p q f xs h k)

  pub count_by-filter-le :
      (p q : A → Bool) (xs : List A) → count_by p (filter_by q xs) ≤ count_by p xs
  unfolding count_by filter_by
  count_by-filter-le p q [] = omega arith
  count_by-filter-le p q (x ∷ xs) = ground (arith, count_by-filter-le p q xs)

  pub count_by-filter :
      (p q : A → Bool) (xs : List A) → count_by p (filter_by q xs) ≡ count_by (λ x. q x && p x) xs
  unfolding count_by filter_by
  count_by-filter p q [] = refl
  count_by-filter p q (x ∷ xs) = ground (arith, count_by-filter p q xs)

  pub length-update :
      (q : A → Bool) (f : A → A) (xs : List A) → length (update_where q f xs) ≡ length xs
  unfolding update_where
  length-update q f [] = refl
  length-update q f (x ∷ xs) = omega (arith, length-update q f xs)

  pub length-filter : (q : A → Bool) (xs : List A) → length (filter_by q xs) ≡ count_by q xs
  unfolding filter_by count_by
  length-filter q [] = refl
  length-filter q (x ∷ xs) = ground (arith, length-filter q xs)

  -- A row that is found stays found, in its new form, after an UPDATE that keeps the key.
  pub find-update :
      (p q : A → Bool) (f : A → A) (xs : List A)
      → ((x : A) → q x ≡ true → p (f x) ≡ p x)
      → {x : A} → find p xs ≡ some x
      → find p (update_where q f xs) ≡ some (if q x then f x else x)
  unfolding find update_where
  find-update p q f [] h e = ground arith
  find-update p q f (y ∷ ys) h {x} e = ground (arith, h y, find-update p q f ys h {x = x})

  -- An UPDATE that touches only rows which a SELECT does not take, before and after it.
  pub find-update_other :
      (p q : A → Bool) (f : A → A) (xs : List A)
      → ((x : A) → q x ≡ true → (p x ≡ false) × (p (f x) ≡ false))
      → find p (update_where q f xs) ≡ find p xs
  unfolding find update_where
  find-update_other p q f [] h = refl
  find-update_other p q f (y ∷ ys) h = ground (arith, h y, find-update_other p q f ys h)

  pub find-update-none :
      (p q : A → Bool) (f : A → A) (xs : List A)
      → ((x : A) → q x ≡ true → p (f x) ≡ p x)
      → find p xs ≡ none
      → find p (update_where q f xs) ≡ none
  unfolding find update_where
  find-update-none p q f [] h e = refl
  find-update-none p q f (y ∷ ys) h e = ground (arith, h y, find-update-none p q f ys h)

-- A predicate of every row.
abbrev pub All {ℓ κ} : {A : Type ℓ} → (A → Type κ) → List A → Type κ
All P [] = Unit
All P (x ∷ xs) = P x × All P xs

pub All-find {ℓ κ} :
    {A : Type ℓ} (P : A → Type κ) (p : A → Bool) (xs : List A) {x : A}
    → All P xs
    → find p xs ≡ some x
    → P x
unfolding find
All-find P p [] h e = absurd (ground arith)
All-find P p (y ∷ ys) {x} h e = elim (Bool-cases (p y)) [
  | inl hit ↦ subst P (ground arith) h.0
  | inr miss ↦ All-find P p ys h.1 (ground arith)
]

pub All-update {ℓ κ} :
    {A : Type ℓ} (P : A → Type κ) (p : A → Bool) (f : A → A) (xs : List A)
    → All P xs
    → ((x : A) → P x → P (f x))
    → All P (update_where p f xs)
unfolding update_where
All-update P p f [] h k = tt
All-update P p f (y ∷ ys) h k = (
  elim (p y) as (λ b. P (if b then f y else y)) [ true ↦ k y h.0 | false ↦ h.0 ],
  All-update P p f ys h.1 k,
)

pub All-filter {ℓ κ} :
    {A : Type ℓ} (P : A → Type κ) (p : A → Bool) (xs : List A) → All P xs → All P (filter_by p xs)
unfolding filter_by
All-filter P p [] h = tt
All-filter P p (y ∷ ys) h =
    elim (p y) as (λ b. All P (if b then y ∷ filter_by p ys else filter_by p ys)) [
      | true ↦ (h.0, All-filter P p ys h.1)
      | false ↦ All-filter P p ys h.1
    ]
