-- ===== src/Client.antt =====
-- The state that the web client keeps: the hooks and requests of apps/web/src/lib, and the logic of
-- the pages that use them.
pub mod Requests
pub mod Feed
pub mod Costs
pub mod Polling
pub mod Graph
pub mod Drawing
pub mod ChaosPage
pub mod Presets
pub mod Pages
mod Examples
