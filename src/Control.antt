-- ===== src/Control.antt =====
-- src/rtde_control_interface.cpp and include/ur_rtde/rtde_control_interface.h.
pub mod Limits
pub mod Recipes
pub mod Port
pub mod Motion
pub mod Settings
pub mod Queries
pub mod Packages
pub mod Refusals
pub mod SendCommand
pub mod Path
pub mod Readings
pub mod Upload
pub mod CustomScript
