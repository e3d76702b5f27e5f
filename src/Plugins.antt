-- ===== src/Plugins.antt =====
-- src/plugins
pub mod Handler
