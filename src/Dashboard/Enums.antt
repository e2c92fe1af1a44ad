-- ===== src/Dashboard/Enums.antt =====
-- The enumerations of include/ur_rtde/dashboard_enums.h.
pub mod SafetyMode
pub mod SafetyStatus
pub mod RobotMode
pub mod ProgramState
