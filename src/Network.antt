-- ===== src/Network.antt =====
-- UPSServer/network/Server.cpp where it calls the system: the listening socket, the options of a
-- new connection, and a round of the `select` loop. What a system call returns is an argument. An
-- `int` is its 32-bit pattern.
pub mod Calls
pub mod Listening
pub mod Accepting
pub mod Selecting
