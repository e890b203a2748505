-- ===== src/Devices.antt =====
-- The device registry of internal/db/device_registry.go and device_registry_admin.go, and the
-- services over it: internal/server/control_plane_service.go and admin_console_service.go.
pub mod Tables
pub mod Lists
pub mod Rows
pub mod Reports
pub mod Policies
pub mod Actions
pub mod Diagnostics
pub mod Config
pub mod Messages
pub mod ControlPlane
pub mod Reporting
pub mod Bundle
pub mod Console
pub mod Summaries
pub mod Join
pub mod Requests
