-- ===== src/Tests.antt =====
-- Runs of the theorems of this library on concrete inputs.
mod Instances
mod Encoding
mod Stores
mod TaskStores
mod Updates
mod Toolings
mod Wakes
mod Clis
mod Executors
mod Pushes
mod Registries
mod Configs
mod Hooks
mod Guards
