-- ===== src/Api.antt =====
-- The data that the operator reads and writes: Kubernetes core objects and the HermesAgent resource.
mod Core
mod Workload
mod Agent
mod Status
pub use Core.*
pub use Workload.*
pub use Agent.*
pub use Status.*
