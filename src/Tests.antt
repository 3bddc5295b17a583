-- ===== src/Tests.antt =====
-- Runs of the model, and the theorems at concrete data.
mod Sandbox
mod Disk
mod Database
mod Network
mod Menu
mod Startup
mod Race
mod Workers
mod Depot
mod Delivery
mod Publish
mod Reader
