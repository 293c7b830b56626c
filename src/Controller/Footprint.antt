-- ===== src/Controller/Footprint.antt =====
-- The places that a reconciliation writes to, whatever comes of it (controller.go as a whole).
pub mod Bounds
pub mod Confined
pub mod Objects
pub mod Whole
pub mod Statuses
pub mod Served
pub mod Collision
