-- ===== src/Rtde.antt =====
-- The RTDE client: include/ur_rtde/rtde.h and src/rtde.cpp.
pub mod Command
pub mod Send
pub mod Registers
pub mod Layout
pub mod StateTypes
pub mod RobotState
pub mod Stream
pub mod Session
