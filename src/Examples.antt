-- ===== src/Examples.antt =====
-- Each theorem at concrete arguments.
mod Values
mod Wire
mod Stream
mod Io
mod Moves
mod Streams
mod Modes
mod Questions
mod Handshake
mod Session
mod Receive
mod Dashboard
mod Gripper
mod Script
mod Upload
