-- ===== src/Order/Seeds.antt =====
-- src/app/order/order_manager.cpp, `seed_mock_data`: the orders that the source writes out.
use iot_dev_sys.Common.Int.{pos}
use iot_dev_sys.Types.Order.{Order, new_order, pending, paid, completed, cancelled, failed}

abbrev pub pending_americano : Order
pending_americano = record new_order {
  order_id = "ORD-20260626-001";
  tenant_id = "tenant_demo";
  device_id = "dev-coffee-001";
  recipe_id = "REC-AMERICANO-001";
  cup_size = "中";
  quantity = pos 1;
  total_amount = pos 1500;
  payment_method = "wechat";
  status = pending;
  created_at = "2026-06-26T09:15:00Z";
}

abbrev pub paid_latte : Order
paid_latte = record new_order {
  order_id = "ORD-20260626-002";
  tenant_id = "tenant_demo";
  device_id = "dev-coffee-001";
  recipe_id = "REC-LATTE-001";
  cup_size = "大";
  quantity = pos 2;
  total_amount = pos 4400;
  payment_method = "alipay";
  status = paid;
  created_at = "2026-06-26T09:20:00Z";
}

abbrev pub pending_water : Order
pending_water = record new_order {
  order_id = "ORD-20260626-003";
  tenant_id = "tenant_demo";
  device_id = "dev-water-001";
  recipe_id = "REC-HOTWATER-001";
  cup_size = "小";
  quantity = pos 1;
  total_amount = pos 500;
  payment_method = "member";
  status = pending;
  created_at = "2026-06-26T09:25:00Z";
}

abbrev pub completed_americano : Order
completed_americano = record new_order {
  order_id = "ORD-20260625-101";
  tenant_id = "tenant_demo";
  device_id = "dev-coffee-001";
  recipe_id = "REC-AMERICANO-001";
  cup_size = "中";
  quantity = pos 1;
  total_amount = pos 1500;
  payment_method = "wechat";
  status = completed;
  created_at = "2026-06-25T14:30:00Z";
}

abbrev pub failed_mocha : Order
failed_mocha = record new_order {
  order_id = "ORD-20260625-102";
  tenant_id = "tenant_demo";
  device_id = "dev-coffee-002";
  recipe_id = "REC-MOCHA-001";
  cup_size = "大";
  quantity = pos 1;
  total_amount = pos 2800;
  payment_method = "alipay";
  status = failed;
  failure_reason = "水泵流量异常";
  created_at = "2026-06-25T15:10:00Z";
}

abbrev pub cancelled_cappuccino : Order
cancelled_cappuccino = record new_order {
  order_id = "ORD-20260625-103";
  tenant_id = "tenant_demo";
  device_id = "dev-coffee-001";
  recipe_id = "REC-CAPPUCCINO-001";
  cup_size = "中";
  quantity = pos 1;
  total_amount = pos 2200;
  payment_method = "wechat";
  status = cancelled;
  created_at = "2026-06-25T16:45:00Z";
}
