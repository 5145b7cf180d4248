-- ===== src/TrustScore/Tests.antt =====
-- The scores of the members of a small group.
use ahjoor_backend.Common.{
  includes, add_all, ◌≡◌, refl, true, some, List, [], ◌∷◌, set_key, ◌≡◌, lookup, find, filter_by,
}
use ahjoor_backend.Entities.{GroupStatus, Membership, Db}
use ahjoor_backend.Fixtures.{savings, ada, bola, db_of}
use ahjoor_backend.TrustScore.{TrustScoreComponents, compute_trust_score, detect_repeated_cohort}
use ahjoor_backend.TrustScore.Counts.{
  collect_components, counted_components, collect_components-counted, no_components,
}
use ahjoor_backend.TrustScore.Recalculation.{
  Completed, pages_of, recalculate_batch, recalculate_all, recalculate_all-Completed,
}

abbrev ended_group : Db
ended_group = db_of (savings GroupStatus.completed 3) (ada ∷ bola ∷ []) []

collect_components-counted_example :
    lookup 21 (collect_components (21 ∷ 22 ∷ []) [] [] ended_group.memberships (1 ∷ []))
    ≡ some (counted_components 21 [] [] ended_group.memberships (1 ∷ []))
unfolding includes find
collect_components-counted_example =
    collect_components-counted 21 (21 ∷ 22 ∷ []) [] [] ended_group.memberships (1 ∷ []) refl

abbrev perfect : TrustScoreComponents
perfect = record no_components {
  on_time_contributions = 30;
  groups_completed_successfully = 9;
  total_groups_participated = 9;
}

best_score : compute_trust_score perfect ≡ 8000
unfolding compute_trust_score
best_score = refl

-- Ada and Bola in three groups together.
abbrev circle : List Membership
circle =
    ada
    ∷ bola
    ∷ record ada { group_id = 2 }
    ∷ record bola { group_id = 2 }
    ∷ record ada { group_id = 3 }
    ∷ record bola { group_id = 3 }
    ∷ []

circle_flagged : (detect_repeated_cohort 21 circle).flagged ≡ true
unfolding detect_repeated_cohort add_all includes filter_by set_key lookup
circle_flagged = refl

recalculate_all-Completed_example :
    Completed
      (recalculate_batch 9000 ended_group)
      (21 ∷ 22 ∷ [])
      0
      []
      (recalculate_all 9000 2 (pages_of (21 ∷ 22 ∷ [])) ended_group [])
recalculate_all-Completed_example = recalculate_all-Completed 9000 (21 ∷ 22 ∷ []) ended_group []
