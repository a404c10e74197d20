-- ===== src/Types.antt =====
-- include/dev_sys/common/types.h: the data that the managers keep and exchange. `std::string` is
-- `String`, a signed integer is ℤ, a vector is `List`. Each `new_…` is the default-constructed value.
pub mod Device
pub mod Order
pub mod Fault
pub mod Ota
pub mod Recipe
pub mod Org
pub mod Account
pub mod Activation
