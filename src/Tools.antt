-- ===== src/Tools.antt =====
-- src/tools/index.ts: the catalog of tools, and the tool that restarts a service.
pub mod Restart
pub mod Catalog
pub mod RoundTrip
