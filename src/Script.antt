-- ===== src/Script.antt =====
-- `ScriptClient` of src/script_client.cpp: the control script is cut to what the controller's version
pub mod Client
pub mod Injection
-- supports, extended by injected code, formatted, and written to the controller. The sockets of
-- Boost.Asio, the files, the script that the build generates (`UR_SCRIPT`) and `snprintf` are
-- parameters. Messages on the console are left out, but not what printing one does to the call.
pub mod Removal
