-- ===== src/Server/Examples.antt =====
-- The server at concrete inputs.
mod Database
mod Log
mod Leaders
mod Processes
mod Turns
mod Threads
