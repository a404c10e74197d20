-- ===== src/Types/Org.antt =====
-- include/dev_sys/common/types.h: organizations.
use iot_dev_sys.Common.{String, Bool, true}
use iot_dev_sys.Common.Int.{ℤ, pos}

pub record OrgInfo : Type 0 where
  pub org_id : ℤ
  pub parent_id : ℤ
  pub tenant_id : String
  pub org_name : String
  pub org_type : String
  pub contact_name : String
  pub contact_phone : String
  pub contact_email : String
  pub address : String
  pub is_active : Bool
  pub level : ℤ
  pub path : String
  pub children_count : ℤ
  pub created_at : String
  pub updated_at : String

unfoldable pub new_org : OrgInfo
new_org = record {
  org_id = pos 0;
  parent_id = pos 0;
  tenant_id = "";
  org_name = "";
  org_type = "";
  contact_name = "";
  contact_phone = "";
  contact_email = "";
  address = "";
  is_active = true;
  level = pos 0;
  path = "";
  children_count = pos 0;
  created_at = "";
  updated_at = "";
}
