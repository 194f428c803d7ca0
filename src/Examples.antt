-- ===== src/Examples.antt =====
-- The theorems at concrete inputs, and tests of the definitions.
mod Orphans
mod Scheduling
mod Text
mod Numbers
mod Caches
mod Locking
mod Addresses
mod Web
mod Nodes
mod Endpoints
mod Chain
mod Pool
