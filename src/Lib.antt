-- ===== src/Lib.antt =====
-- The NAT box of cs636-base: an IPv6 router built into the Xinu kernel, which forwards packets,
-- translates ICMPv6 echo sessions between its inside and outside interfaces, answers neighbour
-- discovery and echo requests, and reassembles and fragments datagrams.
--
-- The parts and their files:
--   Base: Boolean tests on the native numbers, chains of defined results, C arrays as lists.
--   Net/Bytes: `match` of cs636-base/net/fwdipv6.c, `byteComp` of cs636-base/net/reassembly.c.
--   Net/Checksum: cs636-base/net/checksum6.c.
--   Net/Packet: the packet of cs636-base/include/net.h, ipv6.h and icmpv6.h, and the header code of
--     cs636-base/net/sendipv6pkt.c.
--   Net/Fwd: the forwarding table of cs636-base/net/fwdipv6.c; Net/Forward: `fwdIPDatagram`.
--   Net/NdCache: the neighbour cache of cs636-base/net/ndcache.c.
--   Net/Nat: cs636-base/net/nat.c (`incPktRW`, `outPktRW`, `getNewID`).
--   Net/Neighbor: validation and senders of cs636-base/net/nsolicit.c and nadvert.c.
--   Net/Icmp: `icmpv6_in` and `sendEchoResp` of cs636-base/net/icmpv6.c, with the handlers of
--     solicitations and advertisements.
--   Net/Router: router discovery and addresses: cs636-base/net/radvert.c, rsolicit.c, the router
--     cases of icmpv6.c, `sendipv6pkt` of sendipv6pkt.c, and `ipv6_init` of ipv6.c.
--   Net/Input: `ipv6_in` and `isItMine` of cs636-base/net/ipv6.c.
--   Net/Fragment: the cutting and sending of datagrams of cs636-base/net/sendto.c.
--   Shell: the commands of the NAT box in cs636-base/shell, with the parsers of
--     cs636-base/lib/char2Hex.c and atoi.c.
--   Net/Reassembly: cs636-base/net/reassembly.c and the time-out of cs636-base/net/ipv6.c.
--   Kernel/Memory: the heap of cs636-base/system/getmem.c, getstk.c and freemem.c.
--   Kernel/Queue: the table of process queues of cs636-base/system/queue.c, getitem.c, insert.c,
--     insertd.c and newqueue.c.
--   Kernel/Process: the scheduler of cs636-base/system/resched.c and ready.c, sleeping, suspension
--     and messages; Kernel/Semaphore: cs636-base/system/wait.c, signal.c and the other calls on
--     semaphores.
--   Kernel/Buffer: the buffer pools of cs636-base/system/mkbufpool.c, getbuf.c and freebuf.c.
--   Net/Tests, Kernel/Memory/Tests and the like: each result at a concrete input.
-- A received packet enters at `ipv6_in`, which asks the NAT table, forwards by the forwarding
-- table and the neighbour cache, or hands the packet to `icmpv6_in`; the handlers change the
-- cache and the forwarding table and send messages whose checksums `checksumv6` computes. Router
-- messages are events of `icmpv6_in` that Net/Router handles, with the globals that `ipv6_init`
-- and the commands of Shell use. Below, the semaphores and the scheduler share the queue table,
-- and the buffer pools take their memory from the heap and count their buffers with a semaphore.
--
-- State is passed explicitly: a handler returns the tables after it and the list of its events,
-- in order (frames written, sleeps, the return of the buffer). `none` is a run that C does not
-- define or that does not end: an index outside `natTab` or `if_tab`, the NULL of a neighbour
-- that is not in the cache, a fragment or an option behind the bytes of its buffer, or a checksum
-- loop whose 16-bit counter never reaches the length. Arrays are lists of their bytes. A machine
-- integer keeps its wrap-around. Three writes of router discovery go past the ends of their arrays
-- on every run; what they hit is a parameter, the record `Layout` of Net/Router/Receive.
--
-- Bounds: tables have 30 entries. The checksum loop has fuel 32768, enough for every length up
-- to 65534, the greatest for which the loop of the code ends. The loop of `fragmentDatagram` has
-- fuel 65537, more than a payload has bytes, and each round sends at least one. The loop over
-- the options of an advertisement has one round more than the message has bytes. The reassembly
-- table has 16 entries in the code; the theorems hold for any number below 256. The searches of
-- `insert` and `insertd` have one round for each of the 304 entries of the queue table, and a
-- queue holds at most 100 processes. A fragment fits into its buffer of 1520 bytes for every MTU
-- up to 1500.
--
-- Not modelled: printing, the command interpreter, device drivers, file systems, UDP and DNS of
-- the base system, the buffer pool, the timer task and the multicast filters of `ipv6_init`,
-- `create` and `kill` of processes, the context switch itself, ports. Writing to the device
-- always succeeds, and no other thread changes a table while a packet is handled.
pub mod Base
pub mod Kernel
pub mod Net
pub mod Shell
