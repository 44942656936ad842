-- ===== src/Model.antt =====
-- The data of include/neta/{model,lifecycle,tcp_state,connection_direction,route_semantics}.hpp and
-- the texts of its enumerations (src/core/{model,lifecycle,tcp_state,connection_direction,
-- route_semantics}.cpp).
mod Kinds
pub mod Names
mod Records
mod Lifecycle
pub use Kinds.*
pub use Records.*
pub use Lifecycle.*
