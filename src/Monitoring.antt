-- ===== src/Monitoring.antt =====
-- The monitoring of node attributes by the open62541 plug-in: its subscriptions.
pub mod Parameters
pub mod Stack
pub mod Subscription
pub mod Items
pub mod Notify
pub mod Modify
pub mod ModifyItem
pub mod Consistent
pub mod Linking
pub mod Unlinking
pub mod Objects
pub mod Delivery
pub mod Adding
pub mod Removing
pub mod Modifying
pub mod Reachable
pub mod Requests
pub mod TimingOut
