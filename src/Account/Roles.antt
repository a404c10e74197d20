-- ===== src/Account/Roles.antt =====
-- src/app/organization/account_manager.cpp: the roles, and the table of their permissions.
use iot_dev_sys.Common.{String, Bool, List, [], ◌∷◌, ◌==◌, any, if◌then◌else◌}

abbrev pub valid_roles : List String
valid_roles = "super_admin" ∷ "org_admin" ∷ "dept_admin" ∷ "operator" ∷ "viewer" ∷ []

-- The role is found in the list.
abbrev pub is_role : String → Bool
is_role role_code = any (λ r. r == role_code) valid_roles

unfoldable pub permissions_for_role : String → List String
permissions_for_role role_code =
    if role_code == "super_admin"
    then "org:read" ∷ "org:write" ∷ "account:read" ∷ "account:write" ∷ "device:read"
      ∷ "device:write" ∷ "order:read" ∷ "recipe:read" ∷ "recipe:write" ∷ "ota:read" ∷ "ota:write"
      ∷ "fault:read" ∷ "fault:write" ∷ "config:read" ∷ "config:write" ∷ []
    else if role_code == "org_admin"
    then "org:read" ∷ "org:write" ∷ "account:read" ∷ "account:write" ∷ "device:read"
      ∷ "device:write" ∷ "order:read" ∷ "recipe:read" ∷ "recipe:write" ∷ "ota:read" ∷ "ota:write"
      ∷ "fault:read" ∷ "fault:write" ∷ "config:read" ∷ []
    else if role_code == "dept_admin"
    then "org:read" ∷ "account:read" ∷ "device:read" ∷ "device:write" ∷ "order:read" ∷ "recipe:read"
      ∷ "ota:read" ∷ "fault:read" ∷ "fault:write" ∷ []
    else if role_code == "operator"
    then "device:read" ∷ "order:read" ∷ "recipe:read" ∷ "recipe:write" ∷ "ota:read" ∷ "fault:read"
      ∷ "fault:write" ∷ []
    else if role_code == "viewer"
    then "device:read" ∷ "order:read" ∷ "recipe:read" ∷ "ota:read" ∷ "fault:read" ∷ []
    else []
