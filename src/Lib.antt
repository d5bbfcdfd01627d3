-- ===== src/Lib.antt =====
-- The kernel modules of the book "Linux Device Drivers" on a current kernel: the scull drivers, the
-- two network interfaces of snull and the disk of sbull.
--
-- What scull_full is. scull_full/impl/main.c registers twelve character devices. Four of them are
-- driver scull, four are driver scull_pipe, and one each is scull_single, scull_uid, scull_wuid and
-- scull_priv (scull_full/impl/<driver>.c). All but the pipe keep their data in a memory device
-- (scull_full/impl/scull_dev_common.c): a list of nodes, each with an array of pointers to quanta,
-- blocks of a fixed number of bytes. A driver finds its memory device, checks who may open it, and
-- passes the system call on to scull_dev_open, scull_dev_read, scull_dev_write, scull_dev_ioctl or
-- scull_dev_llseek.
--
-- Files and code.
--   Prelude, Int: shared helpers; C's int, unsigned int, long and size_t with wrapping arithmetic.
--   Kernel: what the drivers take from the kernel, as a parameter: memory, user memory, signals,
--     and the caller. Its documented behaviour is `IsLawful`; `IsGenerous` is a kernel that does not
--     refuse anything.
--   Sleep: the waiting of a call that tests a condition, sleeps and tests it again, as a relation
--     between the devices that it finds and the one at which it stops.
--   ScullDev: scull_full/include/scull_dev.h and scull_full/impl/scull_dev_common.c. The pointers
--     `data` and `next` of the list are a list of nodes, a pointer to an array or a quantum is an
--     option. ScullDev/Follow has scull_follow and the arithmetic of positions, ScullDev/Trim
--     scull_trim, scull_dev_open and scull_dev_release, and ScullDev/Read, Write, Seek and Ioctl
--     the operations of those names. A local `goto out` is a branch that gives the lock back.
--     Valid, Places, Lookup, Reading, Storage, Writing and WriteContent carry the proofs, and
--     WriteEffect, ReadEffect, RoundTrip, TrimFrees, IoctlEffect and SeekBounds state what holds.
--   ScullPipe: scull_full/include/scull_pipe.h and scull_full/impl/scull_pipe.c, a ring buffer. The
--     pointers end, rp and wp are offsets. ScullPipe has the state and spacefree, ScullPipe/Open,
--     Read, Write and Poll the operations; Contents says which queue a pipe holds, Waiting where a
--     call that sleeps ends; Advance, Append, TakeData and PutData carry the proofs, and ReadEffect,
--     WriteEffect, Fifo, Readiness and Users state what holds.
--   Scull: scull_full/include/scull.h and scull_full/impl/scull.c.
--   ScullSingle, ScullUid, ScullWuid, ScullPriv: opening and releasing in
--     scull_full/impl/scull_single.c, scull_uid.c, scull_wuid.c and scull_priv.c, with their headers.
--     ScullSingle/Exclusion, ScullUid/Ownership, ScullWuid/Waiting and ScullPriv/Terminals state what
--     holds. The first two take the steps of opens and releases in any order, as a relation. The
--     files Calls have the operations that only pass a call on to the memory device.
--   ScullMem: the text that scullc/impl/scullc_dev_common.c, scullp/impl/scullp_dev_common.c and
--     scullv/impl/scullv_dev_common.c share, over the allocation and the copies in which they
--     differ, a value of `Ops`. Simulation, ReadSame, WriteSame and RoundTrip say when such a device
--     is the memory device of scull_full over another kernel; Zeroing, Bounce, Paged and Smash carry
--     the parts of single drivers.
--   Scullc, Scullp, Scullv: the three drivers, from scullc/include/*.h, scullc/impl/scullc.c and so
--     on. What differs from ScullDev is the fields of the device, trimming, which keeps the geometry,
--     and `Ops`. Scullc/Chunks has the loops over chunks of 128 bytes, Copies and Receiving that they
--     end, and Refinement in each what holds of the driver.
--   Snull: network_device/snull_device.c. A side names an interface; the state is that of both. Pool
--     has the packet pool and the receive queue, Receive snull_rx and snull_poll, Interrupt the two
--     handlers, Transmit snull_hw_tx, __snull_tx and the watchdog, Control opening, closing and the
--     configuration, and Devices adding and removing the interfaces. Sending and Ledger carry the
--     proofs; Polling, SendEffect, Bursts, Lockups and Addresses state what holds.
--   Sbull: block_device/sbull_device.h and sbull_device.c. Transfer has requests and bios, Devices
--     what adding and removing a device hold, and Requests, Bios and Geometry state what
--     holds.
--   Tests: runs at small inputs.
--
-- Conventions. A system call is one function of the state, of the kernel that the call meets and
-- of its arguments; a mutex is held from its lock to its unlock, so that a call between them is
-- one step. A processor exception (division by zero, access outside an array) is the result
-- `fault`. A call that sleeps is given the rounds in which it wakes: what the other processes have
-- made of the device, and whether a signal came; when there are no more, it is still asleep. A run
-- of several processes is a sequence of calls or of atomic steps. The loops run on the list, on the
-- number of nodes still to pass, or on what is left of a budget, so that no fuel is needed; the
-- loops over chunks of scullc run on fuel, one more than the bytes to copy, which is enough as each
-- round copies at least one. A spin lock that is taken while it is held is a fault. Log messages
-- are left out.
--
-- Not modelled: file operation tables, device numbers and module glue, which are registration with
-- the kernel; the main.c of each module; the bodies of the network and block layers; scull_device,
-- scull_pipe_device, sleepy, complete, jit and jiq, which come after the drivers above; hello_world,
-- which only writes log messages.
pub mod Prelude
pub mod Sleep
pub mod Int
pub mod Kernel
pub mod ScullDev
pub mod ScullMem
pub mod Scullc
pub mod Scullp
pub mod Scullv
pub mod Snull
pub mod Sbull
pub mod ScullPipe
pub mod Scull
pub mod ScullSingle
pub mod ScullUid
pub mod ScullWuid
pub mod ScullPriv
pub mod Tests
