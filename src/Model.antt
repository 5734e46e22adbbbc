-- ===== src/Model.antt =====
-- pkg/model: the types that the daemon and the server share. JSON values that the gateway only
-- passes on (`interface{}`) are their serialised text. float64 is the type parameter `F`, with the
-- operations of `Model.Float`.
pub mod Config
pub mod Policy
pub mod Entitlement
pub mod Inquiry
pub mod Float
pub mod Format
