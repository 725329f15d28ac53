-- ===== src/Tests.antt =====
-- The theorems at concrete inputs, and runs of the definitions.
mod Steal
mod Reserve
mod Machine
mod Smc
mod Sender
mod Kept
mod Descriptor
mod Detach
mod Seccomp
mod Context
mod Copyable
mod Growsdown
mod Remap
mod Segfault
mod Template
mod Kernel
mod Mains
mod Race
mod Reader
mod Nested
mod Signals
mod Threads
mod X11
mod Sigtest
mod Probes
