-- ===== src/Groups/Shuffle.antt =====
-- The Fisher-Yates shuffle of activateGroup neither loses nor doubles an index.
use ahjoor_backend.Common.{
  ℕ, suc, zero, ◌+◌, ◌==◌, ◌≡◌, refl, ap, ◌∙◌, arith, ltb, leb, if◌then◌else◌, ◌&&◌, some, List, [],
  ◌∷◌, length, count_by, Option-cases, inl, inr,
}
use ahjoor_backend.Groups.{indices, get_elem?, set_elem, swap, shuffle}

abbrev pub count_number : ℕ → List ℕ → ℕ
count_number k = count_by (λ x. x == k)

set_elem-count :
    (k i y : ℕ) (xs : List ℕ) {a : ℕ}
    → get_elem? xs i ≡ some a
    → count_number k (set_elem i y xs) + (if a == k then 1 else 0)
      ≡ count_number k xs + (if y == k then 1 else 0)
unfolding get_elem? set_elem count_by
set_elem-count k i y [] e = ground arith
set_elem-count k zero y (x ∷ xs) e = ground arith
set_elem-count k (suc i) y (x ∷ xs) {a} e = ground (arith, set_elem-count k i y xs {a = a} e)

get_elem-set_elem :
    (i j b : ℕ) (xs : List ℕ) → get_elem? xs j ≡ some b → get_elem? (set_elem i b xs) j ≡ some b
unfolding get_elem? set_elem
get_elem-set_elem i j b [] e = e
get_elem-set_elem zero zero b (x ∷ xs) e = refl
get_elem-set_elem zero (suc j) b (x ∷ xs) e = e
get_elem-set_elem (suc i) zero b (x ∷ xs) e = e
get_elem-set_elem (suc i) (suc j) b (x ∷ xs) e = get_elem-set_elem i j b xs e

swap-count : (k i j : ℕ) (xs : List ℕ) → count_number k (swap i j xs) ≡ count_number k xs
unfolding swap
swap-count k i j xs = elim (Option-cases (get_elem? xs i)) [
  | inl out ↦ ap (count_number k) (ground arith)
  | inr (a, fa) ↦ elim (Option-cases (get_elem? xs j)) [
    | inl out ↦ ap (count_number k) (ground arith)
    | inr (b, fb) ↦
        let swapped : swap i j xs ≡ set_elem j a (set_elem i b xs) = ground arith in
        omega (
          arith,
          ap (count_number k) swapped,
          set_elem-count k i b xs fa,
          set_elem-count k j a (set_elem i b xs) (get_elem-set_elem i j b xs fb),
        )
  ]
]

pub shuffle-count :
    (k : ℕ) (choose : ℕ → ℕ) (i : ℕ) (xs : List ℕ)
    → count_number k (shuffle choose i xs) ≡ count_number k xs
unfolding shuffle
shuffle-count k choose zero xs = refl
shuffle-count k choose (suc i) xs =
    shuffle-count k choose i (swap (suc i) (choose (suc i)) xs)
    ∙ swap-count k (suc i) (choose (suc i)) xs

set_elem-length : (i y : ℕ) (xs : List ℕ) → length (set_elem i y xs) ≡ length xs
unfolding set_elem
set_elem-length i y [] = refl
set_elem-length zero y (x ∷ xs) = refl
set_elem-length (suc i) y (x ∷ xs) = ap suc (set_elem-length i y xs)

swap-length : (i j : ℕ) (xs : List ℕ) → length (swap i j xs) ≡ length xs
unfolding swap
swap-length i j xs = elim (Option-cases (get_elem? xs i)) [
  | inl out ↦ ap length (ground arith)
  | inr (a, fa) ↦ elim (Option-cases (get_elem? xs j)) [
    | inl out ↦ ap length (ground arith)
    | inr (b, fb) ↦
        let swapped : swap i j xs ≡ set_elem j a (set_elem i b xs) = ground arith in
        ap length swapped ∙ set_elem-length j a (set_elem i b xs) ∙ set_elem-length i b xs
  ]
]

pub shuffle-length :
    (choose : ℕ → ℕ) (i : ℕ) (xs : List ℕ) → length (shuffle choose i xs) ≡ length xs
unfolding shuffle
shuffle-length choose zero xs = refl
shuffle-length choose (suc i) xs =
    shuffle-length choose i (swap (suc i) (choose (suc i)) xs)
    ∙ swap-length (suc i) (choose (suc i)) xs

pub indices-length : (i n : ℕ) → length (indices i n) ≡ n
unfolding indices
indices-length i zero = refl
indices-length i (suc n) = ap suc (indices-length (i + 1) n)

pub indices-count :
    (k i n : ℕ) → count_number k (indices i n) ≡ (if leb i k && ltb k (i + n) then 1 else 0)
unfolding indices count_by
indices-count k i zero = ground arith
indices-count k i (suc n) = ground (arith, indices-count k (i + 1) n)
