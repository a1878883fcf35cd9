-- ===== src/Examples.antt =====
-- Concrete runs of the components.
mod Executor
mod Actions
mod Collectors
mod Tools
mod Service
mod Windows
mod Boundary
mod Transport
mod Lifecycle
mod Snapshot
mod Config
mod McpRouter
