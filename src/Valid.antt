-- ===== src/Valid.antt =====
-- What the bridge asks of the libraries and of the system, over every call: the arguments stand in the
-- ranges that the handlers test.
pub mod Rules
pub mod Cores
pub mod Fds
pub mod Plane
pub mod DataPlane
pub mod Starts
pub mod Calls
