-- ===== src/Groups/StartOrders.antt =====
-- The payout orders that each strategy lets a group start with.
use ahjoor_backend.Common.{
  ℕ, suc, ◌+◌, ◌-◌, ◌==◌, ◌≡◌, refl, ap, ◌∙◌, arith, ltb, leb, if◌then◌else◌, ◌&&◌, true, some,
  List, [], ◌∷◌, length, count_by, subst, Option-cases, inl, inr,
}
use ahjoor_backend.Entities.{PayoutOrderStrategy, Membership, is_sequential, member_count}
use ahjoor_backend.Memberships.Orders.{IsSequence, order_count, unordered}
use ahjoor_backend.Groups.{
  indices, shuffle, number_members, collect_orders, insert_number, sort_numbers, is_continuous,
  order_members,
}
use ahjoor_backend.Groups.Shuffle.{
  count_number, shuffle-count, shuffle-length, indices-length, indices-count,
}

number_members-order :
    (gid k : ℕ) (is : List ℕ) (ms : List Membership)
    → length is ≡ member_count gid ms
    → order_count gid k (number_members gid is ms) ≡ count_number k is
unfolding number_members count_by
number_members-order gid k [] [] e = refl
number_members-order gid k (i ∷ is) [] e = ground arith
number_members-order gid k [] (m ∷ ms) e = ground (arith, number_members-order gid k [] ms)
number_members-order gid k (i ∷ is) (m ∷ ms) e =
    ground (arith, number_members-order gid k is ms, number_members-order gid k (i ∷ is) ms)

number_members-unordered :
    (gid : ℕ) (is : List ℕ) (ms : List Membership)
    → length is ≡ member_count gid ms
    → unordered gid (number_members gid is ms) ≡ 0
unfolding number_members count_by
number_members-unordered gid [] [] e = refl
number_members-unordered gid (i ∷ is) [] e = ground arith
number_members-unordered gid [] (m ∷ ms) e = ground (arith, number_members-unordered gid [] ms)
number_members-unordered gid (i ∷ is) (m ∷ ms) e =
    ground (arith, number_members-unordered gid is ms, number_members-unordered gid (i ∷ is) ms)

pub number_members-count :
    (gid h : ℕ) (is : List ℕ) (ms : List Membership)
    → member_count h (number_members gid is ms) ≡ member_count h ms
unfolding number_members count_by
number_members-count gid h [] ms = refl
number_members-count gid h (i ∷ is) [] = refl
number_members-count gid h (i ∷ is) (m ∷ ms) =
    ground (arith, number_members-count gid h is ms, number_members-count gid h (i ∷ is) ms)

-- The list of orders that ADMIN_DEFINED reads tells how often an order is held.
pub collect_orders-reads :
    (gid k : ℕ) (ms : List Membership) {ks : List ℕ}
    → collect_orders gid ms ≡ some ks
    → (order_count gid k ms ≡ count_number k ks)
      × (unordered gid ms ≡ 0)
      × (member_count gid ms ≡ length ks)
unfolding collect_orders count_by
collect_orders-reads gid k [] {ks} e = ground arith
collect_orders-reads gid k (m ∷ ms) {ks} e = elim (Option-cases (collect_orders gid ms)) [
  | inl refused ↦ ground arith
  | inr (rest, f) ↦ ground (arith, collect_orders-reads gid k ms {ks = rest} f)
]

pub insert_number-count :
    (k x : ℕ) (ks : List ℕ)
    → count_number k (insert_number x ks) ≡ count_number k ks + (if x == k then 1 else 0)
unfolding insert_number count_by
insert_number-count k x [] = ground arith
insert_number-count k x (y ∷ ks) = ground (arith, insert_number-count k x ks)

pub sort_numbers-count :
    (k : ℕ) (ks : List ℕ) → count_number k (sort_numbers ks) ≡ count_number k ks
unfolding sort_numbers count_by
sort_numbers-count k [] = refl
sort_numbers-count k (x ∷ ks) =
    ground (arith, sort_numbers-count k ks, insert_number-count k x (sort_numbers ks))

insert_number-length : (x : ℕ) (ks : List ℕ) → length (insert_number x ks) ≡ suc (length ks)
unfolding insert_number
insert_number-length x [] = refl
insert_number-length x (y ∷ ks) = ground (arith, insert_number-length x ks)

pub sort_numbers-length : (ks : List ℕ) → length (sort_numbers ks) ≡ length ks
unfolding sort_numbers
sort_numbers-length [] = refl
sort_numbers-length (x ∷ ks) =
    insert_number-length x (sort_numbers ks) ∙ ap suc (sort_numbers-length ks)

pub is_continuous-count :
    (k i : ℕ) (ks : List ℕ)
    → is_continuous i ks ≡ true
    → count_number k ks ≡ (if leb i k && ltb k (i + length ks) then 1 else 0)
unfolding is_continuous count_by
is_continuous-count k i [] e = ground arith
is_continuous-count k i (x ∷ ks) e = ground (arith, is_continuous-count k (i + 1) ks)

random-IsSequence :
    (choose : ℕ → ℕ) (gid i : ℕ) (ms : List Membership)
    → IsSequence gid (number_members gid (shuffle choose i (indices 0 (member_count gid ms))) ms)
random-IsSequence choose gid i ms =
    let n : ℕ = member_count gid ms in
    let is : List ℕ = shuffle choose i (indices 0 n) in
    let all : length is ≡ n = shuffle-length choose i (indices 0 n) ∙ indices-length 0 n in
    record {
      ordered = number_members-unordered gid is ms all;
      once = λ k. ground (
        arith,
        number_members-order gid k is ms all,
        number_members-count gid gid is ms,
        shuffle-count k choose i (indices 0 n),
        indices-count k 0 n,
      );
    }

checked-IsSequence :
    (gid : ℕ) (ms : List Membership) {ks : List ℕ}
    → collect_orders gid ms ≡ some ks
    → is_continuous 0 (sort_numbers ks) ≡ true
    → IsSequence gid ms
checked-IsSequence gid ms {ks} e c = record {
  ordered = (collect_orders-reads gid 0 ms e).1;
  once = λ k. ground (
    arith,
    collect_orders-reads gid k ms e,
    sort_numbers-count k ks,
    sort_numbers-length ks,
    is_continuous-count k 0 (sort_numbers ks) c,
  );
}

-- Whatever the strategy, the orders with which a group can start are 0, 1, …, n - 1; under SEQUENTIAL
-- they are those that `addMember` gave.
pub order_members-IsSequence :
    (choose : ℕ → ℕ) (s : PayoutOrderStrategy) (gid : ℕ) (ms : List Membership)
    {out : List Membership}
    → order_members choose s gid ms ≡ some out
    → (is_sequential s ≡ true → IsSequence gid ms)
    → IsSequence gid out
unfolding order_members
order_members-IsSequence choose PayoutOrderStrategy.sequential gid ms {out} e given =
    let same : ms ≡ out = ground arith in subst (IsSequence gid) same (given refl)
order_members-IsSequence choose PayoutOrderStrategy.random gid ms {out} e given =
    let same : number_members gid
          (shuffle choose (member_count gid ms - 1) (indices 0 (member_count gid ms))) ms
        ≡ out =
      ground arith in
    subst (IsSequence gid) same (random-IsSequence choose gid (member_count gid ms - 1) ms)
order_members-IsSequence choose PayoutOrderStrategy.admin_defined gid ms {out} e given =
    elim (Option-cases (collect_orders gid ms)) [
      | inl refused ↦ absurd (ground arith)
      | inr (ks, f) ↦
          let same : ms ≡ out = ground arith in
          subst (IsSequence gid) same (checked-IsSequence gid ms f (ground arith))
    ]
