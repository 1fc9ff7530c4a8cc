-- ===== src/Server.antt =====
-- The management server (internal/ui): its routing table, the addresses of sites, its log buffer, and
-- its sites with their servers.
pub mod Mux
pub mod SitePath
pub mod Query
pub mod LogBuffer
pub mod SiteManager
pub mod Serving
pub mod Sites
