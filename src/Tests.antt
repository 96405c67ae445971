-- ===== src/Tests.antt =====
-- Concrete inputs: an nginx to run the model on, and examples of the theorems.
pub mod Platform
pub mod Disks
mod Stores
mod Zones
mod Purges
mod Files
mod Bootstraps
mod Filters
mod Requests
