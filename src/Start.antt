-- ===== src/Start.antt =====
-- The start of the server: the command line, the log and `main`, under UPSServer/helpers and in
-- UPSServer/main.cpp.
pub mod Output
pub mod Options
pub mod Logger
pub mod Parameters
pub mod Main
