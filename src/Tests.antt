-- ===== src/Tests.antt =====
-- The theorems at concrete inputs.
mod Text
mod Tables
mod Disk
mod Loader
mod Names
mod Users
mod Boot
mod Root
mod Programs
mod Startup
mod Rounds
mod Machines
mod Lines
mod Listings
