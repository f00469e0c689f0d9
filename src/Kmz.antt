-- ===== src/Kmz.antt =====
-- internal/kmz: slot GUIDs, mission archives, and the missions parsed from them.
pub mod Guid
pub mod Archive
pub mod Mission
pub mod Extract
