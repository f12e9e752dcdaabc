-- ===== src/Kernel.antt =====
-- The xv6 kernel of Group6_Project1/kernel.
pub mod Pipe
pub mod Proc
pub mod Log
pub mod Alarm
pub mod Bytes
pub mod Strings
pub mod Semaphore
pub mod Mailbox
pub mod Psinfo
mod Tests
