-- ===== src/Platform.antt =====
-- internal/platform: reading and writing the platform's stores.
pub mod Identity
pub mod Mentions
pub mod Mentionable
pub mod Activity
pub mod Posts
pub mod Entities
pub mod PostActivity
pub mod Conversation
pub mod Sanitize
pub mod Bson
pub mod Moderation
pub mod Messages
pub mod Thread
pub mod Membership
pub mod Community
pub mod Notifications
pub mod Comments
pub mod Send
mod Tests
mod PostTests
mod ReadTests
mod ReachTests
