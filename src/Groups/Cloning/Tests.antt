-- ===== src/Groups/Cloning/Tests.antt =====
-- A savings group, and a public template that another user reads.
use ahjoor_backend.Common.{true, none, some, []}
use ahjoor_backend.Entities.{Group, GroupStatus, Db}
use ahjoor_backend.Fixtures.{savings, db_of}
use ahjoor_backend.Groups.Templates.{CreateGroupTemplate, GroupTemplate, extract_group_config}

abbrev source : Group
source = record (savings GroupStatus.active 1) { max_members = 2 }

abbrev known : Db
known = db_of source [] []

abbrev request : CreateGroupTemplate
request = record {
  name = 60;
  description = none;
  is_public = some true;
  from_group_id = some 1;
  config = none;
}

abbrev template : GroupTemplate
template = record {
  id = 5;
  name = 60;
  description = none;
  is_public = true;
  config = extract_group_config source;
  owner_id = 21;
  usage_count = 0;
  deleted_at = none;
}
