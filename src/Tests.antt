-- ===== src/Tests.antt =====
-- The theorems at concrete inputs.
pub mod Streaming
pub mod Handling
pub mod Policies
pub mod Caching
pub mod Ranging
pub mod Sweeping
pub mod Choosing
pub mod Counting
pub mod Entering
pub mod Announcing
pub mod Holding
pub mod Proxying
pub mod Listing
pub mod Labelling
pub mod Offering
pub mod Encoding
pub mod Fetching
