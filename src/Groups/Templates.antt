-- ===== src/Groups/Templates.antt =====
-- ahjoorxmr/src/groups/group-templates.service.ts: reusable settings of groups. A count that is 0 and a
-- text that is none stand for those that are missing; grace period and timezone are not modelled.
use ahjoor_backend.Common.{
  ℕ, ◌+◌, ◌==◌, if◌then◌else◌, not, ◌&&◌, ◌||◌, Bool, false, Option, none, some, List, [], ◌∷◌,
  ◌++◌, find, filter_by, update_where, Result, ok, not_found, bad_request, forbidden, ◌>>=◌, ◌>>◌,
  throw_if, or_throw, take, drop, length, ◌*◌, ◌-◌,
}
use ahjoor_backend.Entities.{Group, PayoutOrderStrategy, Db, find_group, is_none}
use ahjoor_backend.Stellar.{or_else}

pub record GroupTemplateConfig : Type 0 where
  pub contribution_amount : Option ℕ
  pub round_duration : ℕ
  pub total_rounds : ℕ
  pub max_members : ℕ
  pub min_members : ℕ
  pub asset_code : Option ℕ
  pub asset_issuer : Option ℕ
  pub payout_order_strategy : Option PayoutOrderStrategy
  pub penalty_rate : Option ℕ

pub record GroupTemplate : Type 0 where
  pub id : ℕ
  pub name : ℕ
  pub description : Option ℕ
  pub is_public : Bool
  pub config : GroupTemplateConfig
  pub owner_id : ℕ
  pub usage_count : ℕ
  pub deleted_at : Option ℕ

pub record CreateGroupTemplate : Type 0 where
  pub name : ℕ
  pub description : Option ℕ
  pub is_public : Option Bool
  pub from_group_id : Option ℕ
  pub config : Option GroupTemplateConfig

-- The changed settings: a field that is none keeps its value.
pub record UpdateGroupTemplate : Type 0 where
  pub name : Option ℕ
  pub description : Option (Option ℕ)
  pub is_public : Option Bool
  pub change_config : GroupTemplateConfig → GroupTemplateConfig

pub record CreateGroup : Type 0 where
  pub name : ℕ
  pub contribution_amount : Option ℕ
  pub token : ℕ
  pub asset_code : Option ℕ
  pub asset_issuer : Option ℕ
  pub round_duration : ℕ
  pub total_rounds : ℕ
  pub min_members : ℕ
  pub max_members : ℕ
  pub contract_address : Option ℕ
  pub start_date : Option ℕ
  pub end_date : Option ℕ
  pub payout_order_strategy : Option PayoutOrderStrategy
  pub penalty_rate : Option ℕ
  pub template_id : Option ℕ

abbrev pub extract_group_config : Group → GroupTemplateConfig
extract_group_config g = record {
  contribution_amount = some g.contribution_amount;
  round_duration = g.round_duration;
  total_rounds = g.total_rounds;
  max_members = g.max_members;
  min_members = g.min_members;
  asset_code = some g.asset_code;
  asset_issuer = g.asset_issuer;
  payout_order_strategy = some g.payout_order_strategy;
  penalty_rate = some g.penalty_rate;
}

-- `if (!a) a = b`.
abbrev pub number_or : ℕ → ℕ → ℕ
number_or a b = if a == 0 then b else a

abbrev pub given_or {ℓ} : {A : Type ℓ} → Option A → Option A → Option A
given_or none b = b
given_or (some a) b = some a

-- `if (!a && b) a = b`: also a rate of 0 is taken for none.
abbrev pub rate_or : Option ℕ → Option ℕ → Option ℕ
rate_or a none = a
rate_or none (some b) = if b == 0 then none else some b
rate_or (some a) (some b) = if a == 0 && not (b == 0) then some b else some a

unfoldable pub merge_template_config : GroupTemplateConfig → CreateGroup → CreateGroup
merge_template_config config dto = record dto {
  contribution_amount = given_or dto.contribution_amount config.contribution_amount;
  round_duration = number_or dto.round_duration config.round_duration;
  total_rounds = number_or dto.total_rounds config.total_rounds;
  max_members = number_or dto.max_members config.max_members;
  min_members = number_or dto.min_members config.min_members;
  asset_code = given_or dto.asset_code config.asset_code;
  asset_issuer = given_or dto.asset_issuer config.asset_issuer;
  payout_order_strategy = given_or dto.payout_order_strategy config.payout_order_strategy;
  penalty_rate = rate_or dto.penalty_rate config.penalty_rate;
}

abbrev pub is_template : ℕ → GroupTemplate → Bool
is_template tid t = t.id == tid && is_none t.deleted_at

abbrev pub is_visible : ℕ → GroupTemplate → Bool
is_visible uid t = t.owner_id == uid || t.is_public

unfoldable pub find_template_by_id : ℕ → ℕ → List GroupTemplate → Result GroupTemplate
find_template_by_id tid uid ts = do
  t ← or_throw (find (is_template tid) ts) not_found
  throw_if (not (is_visible uid t)) forbidden
  ok t

unfoldable pub create_template :
    ℕ → CreateGroupTemplate → ℕ → Db → List GroupTemplate → Result (List GroupTemplate)
create_template id dto uid db ts = do
  config ← elim dto.from_group_id [
    | some gid ↦
        or_throw
          (elim (find_group gid db.groups) [ none ↦ none | some g ↦ some (extract_group_config g) ])
          bad_request
    | none ↦ or_throw dto.config bad_request
  ]
  ok (
      ts
      ++ record {
        id = id;
        name = dto.name;
        description = dto.description;
        is_public = or_else dto.is_public false;
        config = config;
        owner_id = uid;
        usage_count = 0;
        deleted_at = none;
      }
        ∷ [])

-- A page of the visible templates; `ts` is in the order of the list, newest first, and `matches` is the
-- search of the database.
pub find_templates :
    ℕ → ℕ → ℕ → (GroupTemplate → Bool) → List GroupTemplate → List GroupTemplate × ℕ
find_templates uid page limit matches ts =
    let seen = filter_by (λ t. is_visible uid t && matches t && is_none t.deleted_at) ts in
    (take limit (drop ((page - 1) * limit) seen), length seen)

unfoldable pub update_template :
    ℕ → UpdateGroupTemplate → ℕ → List GroupTemplate → Result (List GroupTemplate)
update_template tid dto uid ts = do
  t ← or_throw (find (is_template tid) ts) not_found
  throw_if (not (t.owner_id == uid)) forbidden
  let changed = record t {
    name = or_else dto.name t.name;
    description = or_else dto.description t.description;
    is_public = or_else dto.is_public t.is_public;
    config = dto.change_config t.config;
  }
  ok (update_where (λ (x : GroupTemplate). x.id == t.id) (λ _. changed) ts)

unfoldable pub delete_template : ℕ → ℕ → ℕ → List GroupTemplate → Result (List GroupTemplate)
delete_template now tid uid ts = do
  t ← or_throw (find (is_template tid) ts) not_found
  throw_if (not (t.owner_id == uid)) forbidden
  ok (
      update_where (λ (x : GroupTemplate). x.id == t.id) (λ _. record t { deleted_at = some now })
        ts)

abbrev pub increment_usage_count : Option ℕ → List GroupTemplate → List GroupTemplate
increment_usage_count none ts = ts
increment_usage_count (some tid) ts =
    update_where (λ (x : GroupTemplate). x.id == tid)
      (λ (x : GroupTemplate). record x { usage_count = x.usage_count + 1 }) ts
