-- ===== src/Types/Order.antt =====
-- include/dev_sys/common/types.h: orders and their status.
use iot_dev_sys.Common.{String}
use iot_dev_sys.Common.Int.{ℤ, pos}

pub data OrderStatus : Type 0 where
  pending paid brewing completed cancelled failed : OrderStatus

pub record Order : Type 0 where
  pub order_id : String
  pub tenant_id : String
  pub device_id : String
  pub recipe_id : String
  pub recipe_name : String
  pub cup_size : String
  pub quantity : ℤ
  pub total_amount : ℤ
  pub payment_method : String
  pub status : OrderStatus
  pub created_at : String
  pub expired_at : String
  pub failure_reason : String

unfoldable pub new_order : Order
new_order = record {
  order_id = "";
  tenant_id = "";
  device_id = "";
  recipe_id = "";
  recipe_name = "";
  cup_size = "";
  quantity = pos 1;
  total_amount = pos 0;
  payment_method = "";
  status = pending;
  created_at = "";
  expired_at = "";
  failure_reason = "";
}
