-- ===== src/Examples.antt =====
-- The theorems at concrete inputs, and tests of the definitions.
mod Data
mod Formatting
mod Threads
mod Loggers
mod Facade
mod Session
mod Async
mod Libraries
mod Subsystems
mod Crowds
mod Calendar
mod Settings
