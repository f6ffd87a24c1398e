-- ===== src/Tests.antt =====
-- The theorems at concrete inputs.
mod Tables
mod Texts
mod House
mod Checks
mod Lists
mod Rooms
mod Clones
mod Wire
mod Services
mod Grants
mod Network
mod Rings
mod Levels
