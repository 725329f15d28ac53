-- ===== src/Smc.antt =====
-- src/smc*.cpp, src/mremap.cpp: programs that write machine code, run it, change it and run it again.
pub mod Machine
pub mod Action
pub mod Stub
pub mod Report
pub mod Programs
pub mod Verdicts
pub mod Fork
pub mod Threads
pub mod Whole
pub mod Sender
pub mod Detach
pub mod Descriptor
pub mod Files
pub mod Mapper
pub mod Mains
