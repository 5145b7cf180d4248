-- ===== src/Contributions/Tests.antt =====
-- A contribution in a running group, with the check of transactions off.
use ahjoor_backend.Common.{arith, true, false, none, some, err, conflict, count_by}
use ahjoor_backend.Contributions.{CreateContribution, Verifier, create_contribution}
use ahjoor_backend.Contributions.Unique.{HasUniqueRows, create_contribution-HasUniqueRows}
use ahjoor_backend.Fixtures.{running, outside}

abbrev trusting : Verifier
trusting = record {
  maintenance = λ gid. none;
  should_verify = false;
  is_valid = λ hash contract. true;
  locked_rate = λ group hash. none;
  is_less = λ a b. false;
  one = 1;
  in_flight = λ id. err conflict;
}

abbrev payment : CreateContribution
payment = record {
  group_id = 1;
  user_id = 21;
  wallet_address = 11;
  round_number = 1;
  amount = 50;
  transaction_hash = 501;
  timestamp = 400;
}

running-HasUniqueRows : HasUniqueRows running
unfolding count_by
running-HasUniqueRows = record {
  by_hash = λ hash. ground arith;
  by_round = λ uid gid round. ground arith;
}

create_contribution-HasUniqueRows_example :
    HasUniqueRows (create_contribution outside trusting 450 7 5 payment (some 9) running).0
create_contribution-HasUniqueRows_example =
    create_contribution-HasUniqueRows outside trusting 450 7 5 payment (some 9) running
      running-HasUniqueRows
