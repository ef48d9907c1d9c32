-- ===== src/Examples.antt =====
-- Concrete runs: a scripted stream, one program and one observer, to which the theorems are applied.
mod Data
mod Streams
mod Calls
mod Sessions
mod Endings
mod Rounds
mod Environments
mod Serving
mod Starting
mod Lifetimes
mod Execs
mod Clients
mod Threads
