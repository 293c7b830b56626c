-- ===== src/Controller/Converge.antt =====
-- Two reconciliations in a row (controller.go as a whole).
pub mod Places
pub mod Facts
pub mod Passes
pub mod Cores
pub mod Instances
pub mod Steps
pub mod Publish
pub mod Leader
pub mod Credentials
pub mod Actions
pub mod Objects
pub mod Status
pub mod Stored
pub mod Published
pub mod Fixpoint
pub mod Whole
pub mod Held
pub mod Obedient
pub mod Mapped
pub mod Ending
pub mod Resumed
pub mod Mounted
pub mod Reached
pub mod Desired
pub mod Isolated
pub mod Writes
pub mod Parts
pub mod Drawn
pub mod Asked
pub mod Done
