-- ===== src/Config/Accepts.antt =====
-- internal/config/config.go: `validate` against the description of a valid configuration.
pub mod Values
pub mod Rules
pub mod Named
pub mod Recipients
