-- ===== src/Groups/Cloning.antt =====
-- Settings that go from a group into a template, and from the template into a request for a group.
mod Tests
use ahjoor_backend.Common.{ℕ, ◌<◌, ◌≡◌, refl, arith, Option, none, some, ◌++◌}
use ahjoor_backend.Entities.{Group}
use ahjoor_backend.Groups.Templates.{
  CreateGroup, GroupTemplateConfig, merge_template_config, extract_group_config,
}

-- A request that names only the group, its token and the template.
abbrev pub from_template : ℕ → ℕ → ℕ → CreateGroup
from_template name token tid = record {
  name = name;
  contribution_amount = none;
  token = token;
  asset_code = none;
  asset_issuer = none;
  round_duration = 0;
  total_rounds = 0;
  min_members = 0;
  max_members = 0;
  contract_address = none;
  start_date = none;
  end_date = none;
  payout_order_strategy = none;
  penalty_rate = none;
  template_id = some tid;
}

-- The settings that a request asks for.
abbrev pub requested_config : CreateGroup → GroupTemplateConfig
requested_config dto = record {
  contribution_amount = dto.contribution_amount;
  round_duration = dto.round_duration;
  total_rounds = dto.total_rounds;
  max_members = dto.max_members;
  min_members = dto.min_members;
  asset_code = dto.asset_code;
  asset_issuer = dto.asset_issuer;
  payout_order_strategy = dto.payout_order_strategy;
  penalty_rate = dto.penalty_rate;
}

-- No setting of the group is one that a merge takes for missing.
pub record HasSettings (g : Group) : Type 0 where
  pub rounds : 0 < g.total_rounds
  pub most : 0 < g.max_members
  pub least : 0 < g.min_members
  pub duration : 0 < g.round_duration
  pub rate : 0 < g.penalty_rate

-- A penalty rate of 0 is lost: the merge takes the template's 0 for none.
free_rate-lost :
    (g : Group) (name token tid : ℕ)
    → g.penalty_rate ≡ 0
    → (merge_template_config (extract_group_config g) (from_template name token tid)).penalty_rate
      ≡ none
unfolding merge_template_config
free_rate-lost g name token tid free = ground arith
