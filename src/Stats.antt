-- ===== src/Stats.antt =====
-- What GET /stats.json reports: the playback counters and the tally of unanswered requests.
pub mod Metrics
pub mod Unmatched
