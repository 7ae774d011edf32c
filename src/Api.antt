-- ===== src/Api.antt =====
-- api/: what stands behind the routes.
pub mod MediaFetch
