-- ===== src/AuthCache.antt =====
-- pkg/cache/common.go: the authorization cache, which answers who may see which resource.
pub mod Records
pub mod Subjects
pub mod Review
pub mod State
pub mod Notify
pub mod Request
pub mod Sync
pub mod Names
pub mod Keeps
pub mod Runs
pub mod Consistency
pub mod Listing
pub mod Coverage
pub mod Purge
pub mod Exactness
pub mod Delivery
pub mod Removal
pub mod Returns
pub mod Stale
pub mod Unlisted
pub mod Each
pub mod Room
pub mod Capacity
pub mod Granted
pub mod Program
