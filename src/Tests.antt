-- ===== src/Tests.antt =====
-- Runs of the models on small inputs, with the theorems applied to them.
mod Pool
mod Ring
mod Directory
mod SlotMap
mod DiskStore
mod Discovery
mod Storage
mod Store
mod Slots
mod P2p
mod Fetch
