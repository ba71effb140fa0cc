-- ===== src/Tests.antt =====
-- The theorems at concrete inputs, and runs of the definitions.
mod Lists
mod Frames
mod Queues
mod Pages
mod Heaps
mod Prints
mod Regions
mod Disks
mod Programs
mod Tables
mod Paths
mod Threads
mod Devices
