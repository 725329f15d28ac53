-- ===== src/Lib.antt =====
-- Test programs for an emulator of x86-64 Linux: programs that reserve address space, programs that
-- write machine code and change it while they run it, and programs that raise signals from handlers.
-- Their parts hardly share code: each program is a file of its own, and what they have in common is
-- the kernel and the processor under them. Those are not code of the repository, so each group of
-- programs takes them as a parameter: a record of operations, with the documented behaviour as a
-- record of laws. The witnesses in Tests/ run the theorems on such parameters in closed form.
--
-- * Steal.antt is address-space-stealing/alloc.cpp. `steal_memory_region` is `StealMemoryRegion`: its
--   locals are the record `Scanner`, a read of the maps file is a `Read`, and the calls of mmap are
--   the list `maps`. An access outside of a bucket or of the buffer is a `Fault` (Steal/Errors).
--   Steal/Chunks is about the cutting into buffers, Steal/Lines about the text of the file,
--   Steal/Gaps is the specification, Steal/Bucket is about the array, Steal/Scan carries what is
--   recorded along the scan, and Steal/Correct has the results.
-- * Reserve.antt is `main` of src/reserve-address-space.cpp: `fill` is the inner loop, `sweep` the outer
--   one. The outer loop has at most 41 rounds, since 2^51 halves to less than a page in 40; the inner
--   one has fuel for every page that is free. Reserve/Complete has the laws of mmap and the result.
-- * Smc.antt is the group src/smc*.cpp. Smc/Machine is the processor with its memory, Smc/Action the
--   state passing, Smc/Stub the six-byte routine and the calls of it, Smc/Report the lines printed,
--   Smc/Programs the functions of each program, Smc/Verdicts and Smc/Fork what they come to, and
--   Smc/Whole is `main` of src/smc.cpp; Smc/Sender is src/smc-signals.cpp with its sender,
--   Smc/Descriptor and Smc/Files are src/smc-fd.cpp,
--   Smc/Files/Passing is about its main, and says nothing of what a private mapping shows. Smc/Mapper has the mapping calls of the kernel, and Smc/Mains
--   the mains of src/smc-shared.cpp, src/smc-shared-2.cpp and src/smc-2.cpp, with
--   Mirrors, Blocks, Child, Passing and Remapped. Elsewhere an address is what a mapping call returned.
-- * Race.antt is src/smc-mt-2.cpp: two threads as a list of turns, one store or one call each. Race/Turns is
--   about single turns, Race/Outcome about whole schedules.
-- * Reader.antt is src/gdb-jit/fexreader.cpp: `read_debug_info` reads its tables from bytes, and its calls
--   of gdb are a list. Reader/Image says what an image with given tables makes it call.
-- * Context.antt is src/signals/context-demo.c without its switches: `timer_interrupt` up to swapcontext,
--   the two stores of `scheduler`, `next_context` and `point_to_current`, up to setcontext, and what
--   resumes. Context/Machine is the step relation, with the timer as its environment, which may strike
--   between any two of them; Context/Invariant, Context/Rotation and Context/Setup have the results.
-- * Copyable.antt is src/copyable-functions/copyable-functions.h: `make_instance` and calls of what it made,
--   over the bytes of Copyable/Bytes; a call of a copy looks at the bytes that are there. Copyable/Patched
--   is section-test.cpp, whose copies have an immediate patched, with Copyable/Bound, Copyable/Instances
--   and Copyable/Calls; Copyable/Template is template-test.cpp, with Copyable/Lives,
--   Copyable/Program and Copyable/Four.
--   Calls have fuel, and 2 is enough for `main`: a copy and its function.
-- * Growsdown.antt is src/prot-growsdown.cpp over a kernel with pages, rights and mappings; Growsdown/Pages
--   is about the rights of the first page, Growsdown/Passing has the result.
-- * Remap.antt is `main` of src/mremap.cpp over a kernel with pages of objects; Remap/Blocks and Remap/Mirror
--   are about its blocks, Remap/Passing has the result.
-- * Nested/Sleep is `main` of src/signals-nested.cpp while it sleeps: what happens is a list of events, and a
--   handler runs the code of `gencode` on the processor. Nested/Alarmed says how it ends.
-- * Smc/Threads is src/smc-mt.cpp with its threads at once: a schedule is a list of turns, one operation
--   each. Smc/Threads/Solo is a thread by itself on an abstract page, Smc/Threads/Refinement and
--   Smc/Threads/Finished relate the two, Smc/Threads/Joined is about `main`.
-- * X11.antt is src/copyable-functions/x11main.c: events go in, and what it asks of the display is a list of
--   calls. X11/Protocol is about their order, X11/Drawing about what is drawn, X11/Ends about its end.
-- * Sigtest.antt is src/signals/sigtest.cpp, sigtest2.cpp and sigtest3.cpp over what happens to them, the store
--   with fuel: 2 tries are enough. Sigtest/Ending is about the first two, Sigtest/Redirected the third.
-- * Smc/Detach is `main` of src/smc-shmatdt.cpp with the attachments of the kernel, Smc/Detach/Kept its result.
-- * Probes.antt is src/memfd.cpp and src/shmid.cpp; Probes/Answers has what they get to see.
-- * Segfault.antt is src/segfault.cpp, whose store is tried again with fuel: 2 tries are enough.
--   Segfault/Retry has the result.
-- * Seccomp.antt is seccomp/secccomp.c: the filter is a list of instructions, and the kernel that runs
--   it a parameter. Seccomp/Verdict has the results.
-- * Nested/Kills is the step relation of the thread and the handlers of src/signals-nested-2.cpp, with the
--   results in Nested/Counted and Nested/Rounds.
-- * Nested.antt is `gencode` of src/signals-nested.cpp and src/signals-nested-2.cpp, with fuel for each
--   block of 12 bytes. Nested/Layout is about the bytes written, Nested/Cpu and Nested/Calls about
--   what they do on a processor, Nested/Handlers about the counting of signals.
-- * Signals.antt is src/tests/signal: Signals/Samask, Signals/Sigmask and Signals/NoDefer are
--   sigtest_samask.cpp, sigtest_sigmask.cpp and sigtest_no_defer.cpp. The kernel is `raise`; the loops of
--   the mains have fuel, and two rounds are enough. Signals/Deciding puts their results together.
-- * Prelude.antt passes on library names; Prelude/Tests, Prelude/Lists, Prelude/Bits and
--   Prelude/Integers are helpers.
--
-- Not modelled: the text of messages, the clock, the macros of seccomp/tlpi_hdr.h, the build script, the other
-- programs of src/tests, whose result is what the kernel does with a thread or a signal, and the calls of
-- src/memfd.cpp that only print what the kernel answers.
pub mod Prelude
pub mod Steal
pub mod Reserve
pub mod Smc
pub mod Race
pub mod Reader
pub mod Remap
pub mod Seccomp
pub mod Segfault
pub mod Context
pub mod Copyable
pub mod Growsdown
pub mod Nested
pub mod Signals
pub mod X11
pub mod Sigtest
pub mod Probes
mod Tests
