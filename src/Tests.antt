-- ===== src/Tests.antt =====
-- Runs of the modelled code, and the instances of the theorems at concrete inputs.
mod Configs
mod Connections
mod Databases
mod Disks
mod Requests
mod Servers
mod Stored
mod Entities
mod Pools
mod Responses
mod Routes
mod Urls
