-- ===== src/Waitlist/Queue.antt =====
-- The order in which `admitFromWaitlist` reads the queue: ORDER BY position, LIMIT.
use ahjoor_backend.Common.{
  ℕ, suc, ◌-◌, ◌≤◌, ◌≡◌, refl, arith, min, leb, Bool, List, [], ◌∷◌, count_by, length,
}
use ahjoor_backend.Entities.{WaitlistEntry}
use ahjoor_backend.Waitlist.{insert_by_position, sort_by_position, take_rows}

-- Positions do not fall along the list, and the first is at least the bound.
abbrev pub IsSortedFrom : ℕ → List WaitlistEntry → Type 0
IsSortedFrom b [] = Unit {0}
IsSortedFrom b (w ∷ ws) = (b ≤ w.position) × IsSortedFrom w.position ws

insert-IsSortedFrom :
    (b : ℕ) (w : WaitlistEntry) (ws : List WaitlistEntry)
    → b ≤ w.position
    → IsSortedFrom b ws
    → IsSortedFrom b (insert_by_position w ws)
unfolding insert_by_position
insert-IsSortedFrom b w [] h s = (h, tt)
insert-IsSortedFrom b w (x ∷ xs) h s = ground (arith, insert-IsSortedFrom x.position w xs)

pub sort-IsSortedFrom : (ws : List WaitlistEntry) → IsSortedFrom 0 (sort_by_position ws)
unfolding sort_by_position
sort-IsSortedFrom [] = tt
sort-IsSortedFrom (w ∷ ws) =
    insert-IsSortedFrom 0 w (sort_by_position ws) (omega arith) (sort-IsSortedFrom ws)

count-insert :
    (p : WaitlistEntry → Bool) (w : WaitlistEntry) (ws : List WaitlistEntry)
    → count_by p (insert_by_position w ws) ≡ count_by p (w ∷ ws)
unfolding insert_by_position count_by
count-insert p w [] = refl
count-insert p w (x ∷ xs) = ground (arith, count-insert p w xs)

-- Sorting keeps the entries.
pub count-sort :
    (p : WaitlistEntry → Bool) (ws : List WaitlistEntry)
    → count_by p (sort_by_position ws) ≡ count_by p ws
unfolding sort_by_position count_by
count-sort p [] = refl
count-sort p (w ∷ ws) = ground (arith, count-insert p w (sort_by_position ws), count-sort p ws)

abbrev pub is_by : ℕ → WaitlistEntry → Bool
is_by p w = leb w.position p

-- Past a position above the bound, a sorted list has nothing up to the bound.
none_by :
    (p b : ℕ) (ws : List WaitlistEntry) → suc p ≤ b → IsSortedFrom b ws → count_by (is_by p) ws ≡ 0
unfolding count_by
none_by p b [] h s = refl
none_by p b (w ∷ ws) h s = ground (arith, none_by p w.position ws)

none_by_take :
    (p b n : ℕ) (ws : List WaitlistEntry)
    → suc p ≤ b
    → IsSortedFrom b ws
    → count_by (is_by p) (take_rows n ws) ≡ 0
unfolding count_by take_rows
none_by_take p b n [] h s = refl
none_by_take p b n (w ∷ ws) h s = ground (arith, none_by_take p w.position (n - 1) ws)

-- The first n of a sorted queue hold the lowest positions.
pub count-take_sorted :
    (p b n : ℕ) (ws : List WaitlistEntry)
    → IsSortedFrom b ws
    → count_by (is_by p) (take_rows n ws) ≡ min n (count_by (is_by p) ws)
unfolding count_by take_rows
count-take_sorted p b n [] s = omega arith
count-take_sorted p b n (w ∷ ws) s = ground (
  arith,
  none_by p w.position ws,
  none_by_take p w.position (n - 1) ws,
  count-take_sorted p w.position (n - 1) ws s.1,
)

pub length-take : (n : ℕ) (ws : List WaitlistEntry) → length (take_rows n ws) ≡ min n (length ws)
unfolding take_rows
length-take n [] = omega arith
length-take n (w ∷ ws) = ground (arith, length-take (n - 1) ws)

length-insert :
    (w : WaitlistEntry) (ws : List WaitlistEntry)
    → length (insert_by_position w ws) ≡ suc (length ws)
unfolding insert_by_position
length-insert w [] = refl
length-insert w (x ∷ xs) = ground (arith, length-insert w xs)

pub length-sort : (ws : List WaitlistEntry) → length (sort_by_position ws) ≡ length ws
unfolding sort_by_position
length-sort [] = refl
length-sort (w ∷ ws) = omega (arith, length-insert w (sort_by_position ws), length-sort ws)
