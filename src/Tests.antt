-- ===== src/Tests.antt =====
-- Runs of the modelled kernel code at concrete inputs.
pub mod Bytes
pub mod Maps
pub mod Pages
pub mod Frees
pub mod Queues
pub mod Locks
pub mod Tables
pub mod Processes
pub mod Blocks
pub mod Mappings
pub mod Devices
pub mod Timers
pub mod Randoms
pub mod Screens
pub mod Processors
pub mod Memories
