-- ===== src/TrustScore/Recalculation.antt =====
-- `recalculateBatch` and `recalculateAll`: the nightly job over all users, oldest first.
use ahjoor_backend.Common.{
  includes, distinct, ℕ, zero, suc, ◌+◌, ◌-◌, ◌≤◌, ◌<◌, ◌≡◌, ap, sym, ◌∙◌, arith, ◌==◌, leb,
  if◌then◌else◌, ◌&&◌, Bool, true, false, Option, none, some, List, [], ◌∷◌, ◌++◌, map, length,
  filter_by, lookup, set_key, take, drop, length-drop, length-take, empty-of-length, take-drop,
  drop-drop, Bool-cases, inl, inr, All,
}
use ahjoor_backend.Finance.{Penalty, Contribution}
use ahjoor_backend.Entities.{Group, GroupStatus, Membership, Db, is_none}
use ahjoor_backend.TrustScore.{MemberTrustScore, compute_trust_score, detect_repeated_cohort}
use ahjoor_backend.TrustScore.Counts.{Components, collect_components}

abbrev pub is_completed : GroupStatus → Bool
is_completed GroupStatus.completed = true
is_completed _ = false

abbrev pub Scores : Type 0
Scores = List (ℕ × MemberTrustScore)

pub upsert_scores : ℕ → Components → List Membership → List ℕ → Scores → Scores
upsert_scores now comps cohort [] scores = scores
upsert_scores now comps cohort (u ∷ us) scores =
    upsert_scores now comps cohort us (elim (lookup u comps) [
      | none ↦ scores
      | some c ↦
          set_key u
            (record {
              score = compute_trust_score c;
              anti_gaming = detect_repeated_cohort u cohort;
              components = c;
              last_calculated_at = now;
            })
            scores
    ])

abbrev pub in_batch : List ℕ → ℕ → Bool
in_batch ids u = includes u ids

pub recalculate_batch : ℕ → Db → List ℕ → Scores → Scores
unfolding upsert_scores
recalculate_batch now db ids scores =
    let contributions = filter_by (λ (c : Contribution). in_batch ids c.user_id) db.contributions in
    let penalties = filter_by (λ (p : Penalty). in_batch ids p.user_id) db.penalties in
    let memberships = filter_by (λ (m : Membership). in_batch ids m.user_id) db.memberships in
    let group_ids = distinct (map (λ (m : Membership). m.group_id) memberships) in
    let cohort = filter_by (λ (m : Membership). includes m.group_id group_ids) db.memberships in
    let completed =
      filter_by
        (λ (g : Group). includes g.id group_ids && is_completed g.status && is_none g.deleted_at)
        db.groups in
    let comps =
      collect_components ids contributions penalties memberships
        (map (λ (g : Group). g.id) completed) in
    upsert_scores now comps (if length group_ids == 0 then memberships else cohort) ids scores

-- TRUST_SCORE_BATCH_SIZE.
abbrev pub batch_size : ℕ
batch_size = 200

module _ {S : Type 0} (batch : List ℕ → S → S) where
  -- The loop of `recalculateAll`, on fuel: none where the fuel has run out. `page_at` is what the
  -- database answers to the query with an offset.
  pub recalculate_loop : ℕ → (ℕ → List ℕ) → ℕ → ℕ → ℕ → S → Option (S × ℕ)
  recalculate_loop total_users page_at zero offset processed s = none
  recalculate_loop total_users page_at (suc fuel) offset processed s =
      let page = page_at offset in
      let rest =
        recalculate_loop total_users page_at fuel (offset + batch_size) (processed + length page)
          (batch page s) in
      if leb total_users offset
      then some (s, processed)
      else if length page == 0
      then some (s, processed)
      else rest

  -- The batches one after the other.
  pub run_batches : List (List ℕ) → S → S
  run_batches [] s = s
  run_batches (page ∷ pages) s = run_batches pages (batch page s)

  -- Whatever the pages are, the loop ends with one step of fuel more than there are users left.
  recalculate_loop-returns :
      (total_users : ℕ) (page_at : ℕ → List ℕ) (fuel offset processed : ℕ) (s : S)
      → total_users - offset < fuel
      → is_none (recalculate_loop total_users page_at fuel offset processed s) ≡ false
  unfolding recalculate_loop
  recalculate_loop-returns total_users page_at zero offset processed s enough = absurd (omega arith)
  recalculate_loop-returns total_users page_at (suc fuel) offset processed s enough =
      elim (Bool-cases (leb total_users offset)) [
        | inl past ↦ ground arith
        | inr more ↦ ground (
          arith,
          recalculate_loop-returns total_users page_at fuel (offset + batch_size)
              (processed + length (page_at offset)) (batch (page_at offset) s) (ground arith),
        )
      ]

pub recalculate_all : ℕ → ℕ → (ℕ → List ℕ) → Db → Scores → Option (Scores × ℕ)
unfolding recalculate_loop
recalculate_all now total_users page_at db scores =
    recalculate_loop (recalculate_batch now db) total_users page_at (suc total_users) 0 0 scores

recalculate_all-returns :
    (now total_users : ℕ) (page_at : ℕ → List ℕ) (db : Db) (scores : Scores)
    → is_none (recalculate_all now total_users page_at db scores) ≡ false
unfolding recalculate_all
recalculate_all-returns now total_users page_at db scores =
    recalculate_loop-returns (recalculate_batch now db) total_users page_at (suc total_users) 0 0
      scores (omega arith)

-- The pages of 200 that are cut from the list of all users.
abbrev pub pages_of : List ℕ → ℕ → List ℕ
pages_of users offset = take batch_size (drop offset users)

abbrev pub concat : List (List ℕ) → List ℕ
concat [] = []
concat (xs ∷ xss) = xs ++ concat xss

-- How the loop ends from an offset: it runs batches of at most 200 users that are, one after the other,
-- all users from the offset on, and it returns the number of all users.
pub record Completed {S : Type 0} (batch : List ℕ → S → S) (users : List ℕ) (offset : ℕ) (s : S)
    (result : Option (S × ℕ)) : Type 0 where
  pub pages : List (List ℕ)
  pub covered : concat pages ≡ drop offset users
  pub small : All (λ page. length page ≤ batch_size) pages
  pub ended : result ≡ some (run_batches batch pages s, length users)

recalculate_loop-Completed :
    {S : Type 0} (batch : List ℕ → S → S) (users : List ℕ) (fuel offset processed : ℕ) (s : S)
    → length users - offset < fuel
    → processed + (length users - offset) ≡ length users
    → Completed batch users offset s
        (recalculate_loop batch (length users) (pages_of users) fuel offset processed s)
unfolding recalculate_loop run_batches
recalculate_loop-Completed batch users zero offset processed s enough sum = absurd (omega arith)
recalculate_loop-Completed batch users (suc fuel) offset processed s enough sum =
    let page = take batch_size (drop offset users) in
    let long = length-take batch_size (drop offset users) in
    let left = length-drop offset users in
    elim (Bool-cases (leb (length users) offset)) [
      | inl past ↦ record {
        pages = [];
        covered = empty-of-length (drop offset users) (ground arith);
        small = tt;
        ended = ground arith;
      }
      | inr more ↦
          let rest =
            recalculate_loop-Completed batch users fuel (offset + batch_size)
              (processed + length page) (batch page s) (ground arith) (ground arith) in
          record {
            pages = page ∷ rest.pages;
            covered =
                ap (λ ys. page ++ ys) (rest.covered ∙ sym (drop-drop offset batch_size users))
                ∙ take-drop batch_size (drop offset users);
            small = (ground arith, rest.small);
            ended = ground (arith, rest.ended);
          }
    ]

-- The nightly recalculation ends, and returns the number of users; its batches are, one after the
-- other, all users in the order of creation, and no batch has more than 200 users. The database
-- answers with pages of 200 that are cut from one list of users: none is added meanwhile, and
-- users of the same createdAt keep their order.
pub recalculate_all-Completed :
    (now : ℕ) (users : List ℕ) (db : Db) (scores : Scores)
    → Completed
        (recalculate_batch now db)
        users
        0
        scores
        (recalculate_all now (length users) (pages_of users) db scores)
unfolding recalculate_all
recalculate_all-Completed now users db scores =
    recalculate_loop-Completed (recalculate_batch now db) users (suc (length users)) 0 0 scores
      (omega arith) (omega arith)
