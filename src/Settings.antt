-- ===== src/Settings.antt =====
-- settings.rs: the settings store and its typed views.
pub mod Values
pub mod Service
pub mod Exclusion
pub mod Serve
pub mod UiKeys
pub mod Config
mod Tests
