-- ===== src/Common/Maps.antt =====
-- A JavaScript Map or object as the list of its entries, in the order in which the keys were added.
use Prim.Native.Nat.{ℕ}
use mathlib.Core.Path.{◌≡◌, refl}
use mathlib.Core.Bool.{Bool, ◌&&◌}
use mathlib.Core.Option.{Option, none, some}
use mathlib.Core.List.{List, [], ◌∷◌}
use native.Mathlib.Omega.{arith}
use Prim.Native.Nat.{◌≤◌}
use ahjoor_backend.Common.Lists.{count_by}
use ahjoor_backend.Common.Tests.{◌==◌, if◌then◌else◌}

module _ {ℓ} {V : Type ℓ} where
  -- `map.get(k)`, and `map[k]` on an object.
  unfoldable pub lookup : ℕ → List (ℕ × V) → Option V
  lookup k [] = none
  lookup k (e ∷ m) = if e.0 == k then some e.1 else lookup k m

  -- `map.set(k, v)`: a key that is there keeps its place.
  unfoldable pub set_key : ℕ → V → List (ℕ × V) → List (ℕ × V)
  set_key k v [] = (k, v) ∷ []
  set_key k v (e ∷ m) = let rest = set_key k v m in if e.0 == k then (k, v) ∷ m else e ∷ rest

  -- `map.delete(k)`.
  unfoldable pub delete_key : ℕ → List (ℕ × V) → List (ℕ × V)
  delete_key k [] = []
  delete_key k (e ∷ m) = let rest = delete_key k m in if e.0 == k then rest else e ∷ rest

  pub lookup-set_key :
      (j k : ℕ) (v : V) (m : List (ℕ × V))
      → lookup j (set_key k v m) ≡ (if k == j then some v else lookup j m)
  unfolding lookup set_key
  lookup-set_key j k v [] = refl
  lookup-set_key j k v (e ∷ m) = ground (arith, lookup-set_key j k v m)

  pub lookup-delete_key :
      (j k : ℕ) (m : List (ℕ × V))
      → lookup j (delete_key k m) ≡ (if k == j then none else lookup j m)
  unfolding lookup delete_key
  lookup-delete_key j k [] = ground arith
  lookup-delete_key j k (e ∷ m) = ground (arith, lookup-delete_key j k m)

  abbrev pub is_entry_of : ℕ → ℕ × V → Bool
  is_entry_of j e = e.0 == j

  count-set_key :
      (j k : ℕ) (v : V) (m : List (ℕ × V))
      → count_by (is_entry_of j) (set_key k v m)
        ≡ (if k == j && count_by (is_entry_of j) m == 0 then 1 else count_by (is_entry_of j) m)
  unfolding count_by set_key
  count-set_key j k v [] = ground arith
  count-set_key j k v (e ∷ m) = ground (arith, count-set_key j k v m)

  -- A Map has one entry for each key at most.
  abbrev pub IsMap : List (ℕ × V) → Type 0
  IsMap m = (j : ℕ) → count_by (is_entry_of j) m ≤ 1

  pub set_key-IsMap : (k : ℕ) (v : V) (m : List (ℕ × V)) → IsMap m → IsMap (set_key k v m)
  set_key-IsMap k v m h j = ground (arith, h j, count-set_key j k v m)

  pub lookup-absent :
      (j : ℕ) (m : List (ℕ × V)) → count_by (is_entry_of j) m ≡ 0 → lookup j m ≡ none
  unfolding count_by lookup
  lookup-absent j [] e = refl
  lookup-absent j (x ∷ m) e = ground (arith, lookup-absent j m)
