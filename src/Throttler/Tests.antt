-- ===== src/Throttler/Tests.antt =====
-- A limit of one request in 1000 ms: the first is let through, the second is refused.
use ahjoor_backend.Common.{
  ℕ, ◌≤◌, refl, arith, true, false, [], ◌∷◌, count_by, lookup, set_key, filter_by,
}
use ahjoor_backend.Throttler.{
  Storage, ThrottlerStorageRecord, is_recent, increment, sliding_window_hit, count_hit, block,
  answer,
}
use ahjoor_backend.Throttler.Sliding.{Limit, Requests, no_requests, request, sliding_window-bounded}

abbrev one_in_a_second : ℕ → Limit
one_in_a_second key = record { ttl = 1000; limit = 1; block_duration = 500 }

abbrev empty_storage : Storage
empty_storage = record { windows = []; counters = []; blocks = [] }

abbrev after_first : Storage
after_first = record {
  windows = (7, record { members = (41, 5000) ∷ []; expires_at = 6000 }) ∷ [];
  counters = [];
  blocks = [];
}

abbrev let_through : ThrottlerStorageRecord
let_through = record {
  total_hits = 1;
  time_to_expire = 1;
  is_blocked = false;
  time_to_block_expire = 0;
}

abbrev after_second : Storage
after_second = record {
  windows = (7, record { members = (41, 5000) ∷ (42, 5200) ∷ []; expires_at = 6200 }) ∷ [];
  counters = [];
  blocks = (7, 5700) ∷ [];
}

abbrev refused : ThrottlerStorageRecord
refused = record { total_hits = 2; time_to_expire = 1; is_blocked = true; time_to_block_expire = 1 }

abbrev one_request : Requests one_in_a_second 7 ((41, 5000) ∷ []) after_first 5000
unfolding increment count_hit sliding_window_hit block answer lookup set_key filter_by
one_request =
    request [] empty_storage after_first 0 5000 41 7 let_through no_requests (omega arith) refl refl

abbrev two_requests : Requests one_in_a_second 7 ((41, 5000) ∷ []) after_second 5200
unfolding increment count_hit sliding_window_hit block answer lookup set_key filter_by
two_requests =
    request ((41, 5000) ∷ []) after_first after_second 5000 5200 42 7 refused one_request
      (omega arith) refl refl

sliding_window-bounded_example : count_by (is_recent 5900 1000) ((41, 5000) ∷ []) ≤ 1
sliding_window-bounded_example =
    sliding_window-bounded one_in_a_second 7 5900 two_requests (omega arith)
