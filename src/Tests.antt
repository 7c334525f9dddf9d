-- ===== src/Tests.antt =====
-- Concrete inputs for the library, and the theorems applied to them.
pub mod Instances
mod Paths
mod Filters
mod Debouncing
mod Timing
mod Watching
mod Tables
mod Renames
mod Mac
mod OnWindows
pub mod OnLinux
mod Runs
pub mod Sorting
pub mod OnMac
mod Looping
mod Programs
mod Orders
