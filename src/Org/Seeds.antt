-- ===== src/Org/Seeds.antt =====
-- src/app/organization/org_manager.cpp, `seed_mock_data`: the organizations that the source writes out.
use iot_dev_sys.Common.Int.{pos}
use iot_dev_sys.Types.Org.{OrgInfo, new_org}

abbrev pub company : OrgInfo
company = record new_org {
  parent_id = pos 0;
  tenant_id = "company_zhangsan";
  org_name = "张三咖啡有限公司";
  org_type = "company";
  contact_name = "张三";
  contact_phone = "13800001111";
  contact_email = "zhangsan@example.com";
  address = "上海市浦东新区张江高科技园区";
}

abbrev pub huadong : OrgInfo
huadong = record new_org {
  parent_id = pos 1;
  tenant_id = "dept_huadong";
  org_name = "华东区";
  org_type = "department";
  contact_name = "李经理";
  contact_phone = "13900002222";
  contact_email = "lijingli@example.com";
}

abbrev pub shanghai : OrgInfo
shanghai = record new_org {
  parent_id = pos 2;
  tenant_id = "dept_shanghai";
  org_name = "上海运营中心";
  org_type = "department";
  contact_name = "王五";
  contact_phone = "13600003333";
  contact_email = "wangwu@example.com";
}

abbrev pub hangzhou : OrgInfo
hangzhou = record new_org {
  parent_id = pos 2;
  tenant_id = "dept_hangzhou";
  org_name = "杭州运营中心";
  org_type = "department";
  contact_name = "赵六";
  contact_phone = "13500004444";
  contact_email = "zhaoliu@example.com";
}

abbrev pub huanan : OrgInfo
huanan = record new_org {
  parent_id = pos 1;
  tenant_id = "dept_huanan";
  org_name = "华南区";
  org_type = "department";
  contact_name = "陈总监";
  contact_phone = "13700005555";
  contact_email = "chen@example.com";
}

abbrev pub rnd : OrgInfo
rnd = record new_org {
  parent_id = pos 1;
  tenant_id = "dept_rnd";
  org_name = "研发部";
  org_type = "department";
  contact_name = "孙工";
  contact_phone = "13300006666";
  contact_email = "sun@example.com";
}
