-- ===== src/Worker.antt =====
-- crates/discord-oidc-worker/src: the Durable Objects, their clients, and the entry point.
pub mod Storage
pub mod AuthorizationState
pub mod DoStore
pub mod Entries
pub mod Sweeping
pub mod Answers
pub mod StoreEntries
pub mod StoreMessages
pub mod StoreContract
pub mod DiscordHttp
pub mod Router
pub mod Routes
pub mod ClientRegistryState
pub mod RegistryClient
pub mod Paths
pub mod Records
pub mod Changes
pub mod Rotations
pub mod RegistryMessages
pub mod RegistryAnswers
pub mod Listing
pub mod RegistryContract
