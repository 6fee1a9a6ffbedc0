-- ===== src/ControlPlane.antt =====
-- internal/controlplane: the data of the control plane, its store, and the planners over it.
pub mod Model
pub mod Config
pub mod Platform
pub mod Store
pub mod Agents
pub mod Restores
pub mod ReplicationHealth
pub mod Planner
pub mod Erasure
pub mod Samples
pub mod Scheduler
pub mod ScheduleRuns
pub mod Runs
