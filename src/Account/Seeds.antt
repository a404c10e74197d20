-- ===== src/Account/Seeds.antt =====
-- src/app/organization/account_manager.cpp, `seed_mock_data`: the accounts that the source writes out.
use iot_dev_sys.Common.Int.{pos}
use iot_dev_sys.Types.Account.{AccountInfo, new_account}

abbrev pub admin : AccountInfo
admin = record new_account {
  username = "admin";
  display_name = "张三（超级管理员）";
  org_id = pos 1;
  role_code = "super_admin";
  email = "admin@example.com";
  phone = "13800000000";
}

abbrev pub lijingli : AccountInfo
lijingli = record new_account {
  username = "lijingli";
  display_name = "李经理";
  org_id = pos 2;
  role_code = "org_admin";
  email = "lijingli@example.com";
  phone = "13900002222";
}

abbrev pub wangwu : AccountInfo
wangwu = record new_account {
  username = "wangwu";
  display_name = "王五";
  org_id = pos 3;
  role_code = "dept_admin";
  email = "wangwu@example.com";
  phone = "13600003333";
}

abbrev pub operator1 : AccountInfo
operator1 = record new_account {
  username = "operator1";
  display_name = "运营员小赵";
  org_id = pos 5;
  role_code = "operator";
  email = "zhao@example.com";
}

abbrev pub viewer1 : AccountInfo
viewer1 = record new_account {
  username = "viewer1";
  display_name = "只读用户小刘";
  org_id = pos 6;
  role_code = "viewer";
  email = "liu@example.com";
}
