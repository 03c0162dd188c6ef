-- ===== src/Examples.antt =====
-- The theorems at concrete inputs, and runs of the definitions.
mod Ports
mod Bus
mod Records
mod Runs
mod Machines
mod Loads
mod Shows
mod Desk
mod Disks
mod Frames
mod SelfTests
mod Pages
