-- ===== src/Common/Sets.antt =====
-- A JavaScript Set of numbers as the list of its values, in the order in which they were added.
use Prim.Native.Nat.{ℕ}
use mathlib.Core.Path.{◌≡◌, refl}
use mathlib.Core.Bool.{Bool, false, ◌||◌}
use mathlib.Core.List.{List, [], ◌∷◌, ◌++◌}
use native.Mathlib.Omega.{arith}
use ahjoor_backend.Common.Tests.{◌==◌, if◌then◌else◌, ==_refl}

-- `set.has(x)`, and `includes` on an array.
unfoldable pub includes : ℕ → List ℕ → Bool
includes x [] = false
includes x (y ∷ ys) = y == x || includes x ys

-- `set.add(x)`.
abbrev pub add : ℕ → List ℕ → List ℕ
add x ys = if includes x ys then ys else ys ++ x ∷ []

unfoldable pub add_all : List ℕ → List ℕ → List ℕ
add_all [] ys = ys
add_all (x ∷ xs) ys = add_all xs (add x ys)

-- `[...new Set(xs)]`.
abbrev pub distinct : List ℕ → List ℕ
distinct xs = add_all xs []

pub includes-append :
    (x : ℕ) (ys zs : List ℕ) → includes x (ys ++ zs) ≡ (includes x ys || includes x zs)
unfolding includes
includes-append x [] zs = refl
includes-append x (y ∷ ys) zs = ground (arith, includes-append x ys zs)

-- The Set has the values of the list and those that it had.
pub includes-add_all :
    (x : ℕ) (xs ys : List ℕ) → includes x (add_all xs ys) ≡ (includes x xs || includes x ys)
unfolding includes add_all
includes-add_all x [] ys = refl
includes-add_all x (z ∷ xs) ys =
    ground (arith, includes-add_all x xs (add z ys), includes-append x ys (z ∷ []), ==_refl x)
