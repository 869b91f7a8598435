-- ===== src/Moq.antt =====
-- The MoQ stack (moq.c).
pub mod DatagramType
pub mod SubgroupType
pub mod FetchFlags
pub mod RequestId
pub mod Namespaces
pub mod Codes
pub mod Grease
pub mod SetupOptions
pub mod Properties
pub mod Objects
pub mod AuthToken
pub mod Messages
pub mod Subscriptions
