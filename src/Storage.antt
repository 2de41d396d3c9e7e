-- ===== src/Storage.antt =====
-- The Git storage (internal/storage/git).
pub mod Format
pub mod RoundTrip
pub mod Cli
pub mod Names
pub mod Store
pub mod Listing
pub mod Laws
pub mod Saving
pub mod Arriving
pub mod ReadBack
pub mod OnBranch
