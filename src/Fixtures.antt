-- ===== src/Fixtures.antt =====
-- Concrete rows on which the witnesses run: a group of two members, in several states.
use ahjoor_backend.Common.{ℕ, ◌+◌, ◌*◌, false, none, some, List, [], ◌∷◌}
use ahjoor_backend.Entities.{
  Group, GroupStatus, PayoutOrderStrategy, Membership, MembershipStatus, WaitlistEntry,
  WaitlistStatus, Db,
}
use ahjoor_backend.Stellar.{Outside, paid_out, threw, refused, chain_confirmed}

abbrev pub savings : GroupStatus → ℕ → Group
savings status round = record {
  id = 1;
  name = 100;
  contract_address = some 99;
  admin_wallet = 11;
  contribution_amount = 50;
  token = 8;
  asset_code = 7;
  asset_issuer = none;
  unit_of_account_asset_code = 7;
  unit_of_account_asset_issuer = none;
  fx_tolerance_bps = 100;
  penalty_rate = 2;
  round_duration = 3600;
  status = status;
  current_round = round;
  total_rounds = 2;
  payout_order_strategy = PayoutOrderStrategy.sequential;
  min_members = 2;
  max_members = 3;
  stale_at = none;
  start_date = none;
  end_date = none;
  deleted_at = none;
}

abbrev pub ada : Membership
ada = record {
  id = 1;
  group_id = 1;
  user_id = 21;
  wallet_address = 11;
  payout_order = some 0;
  has_received_payout = false;
  has_paid_current_round = false;
  transaction_hash = none;
  status = MembershipStatus.active;
}

abbrev pub bola : Membership
bola = record ada { id = 2; user_id = 22; wallet_address = 12; payout_order = some 1 }

abbrev pub chidi : WaitlistEntry
chidi = record {
  id = 1;
  group_id = 1;
  user_id = 23;
  wallet_address = 13;
  position = 1;
  status = WaitlistStatus.waiting;
}

abbrev pub dayo : WaitlistEntry
dayo = record chidi { id = 2; user_id = 24; wallet_address = 14; position = 2 }

abbrev pub db_of : Group → List Membership → List WaitlistEntry → Db
db_of group members queue = record {
  groups = group ∷ [];
  memberships = members;
  waitlist = queue;
  penalties = [];
  contributions = [];
  payouts = [];
  effects = [];
}

abbrev pub forming : Db
forming = db_of (savings GroupStatus.pending 0) (ada ∷ bola ∷ []) []

abbrev pub queued : Db
queued = db_of (savings GroupStatus.pending 0) (ada ∷ bola ∷ []) (dayo ∷ chidi ∷ [])

abbrev pub running : Db
running = db_of (savings GroupStatus.active 1) (ada ∷ bola ∷ []) []

-- A chain that pays at once, with hash 77, and decimals that are whole numbers.
abbrev pub outside : Outside
outside = record {
  disburse = λ contract wallet amount asset. paid_out 77 77;
  path_payment = λ sent sent_issuer asset issuer amount tolerance wallet. threw;
  transaction_status = λ hash. chain_confirmed;
  uppercase = λ text. text;
  order_text = λ gid round. 1000 + round;
  state_text = λ status id. 2000 + id;
  decimal_zero = 0;
  plus = λ a b. a + b;
  times = λ a b. a * b;
  to_fixed = λ a. a;
  one = 1;
  crash_after_submit = false;
}

abbrev pub offline : Outside
offline = record outside { disburse = λ contract wallet amount asset. refused }
