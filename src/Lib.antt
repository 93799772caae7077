-- ===== src/Lib.antt =====
-- clumsy captures the packets of a host (WinDivert on Windows, NFQUEUE on Linux), passes the packet
-- list through twelve modules that delay, drop, repeat or change packets, and sends what is left.
--
-- Parts and how they interact. The capture backend (src/divert_linux.cpp) puts each captured packet
-- that passes the filter (src/filterexpr.cpp) into the packet list, and then, as at every tick of its
-- clock, runs the modules over the list in a fixed order and sends the rest. Every module is a table of
-- functions (startUp, process, closeDown, setParam) on its own state; it takes packets out of the list
-- and frees them, or holds them back in a buffer of its own. lag and jitter record the delays they cause
-- in the histogram of src/latency.cpp. Each packet from the queue must get one verdict in the end.
--
-- Which file models which code:
--   Prelude, Prelude/*   lists measured by native numbers, DWORD arithmetic, a ℤ over native numbers
--   Utils                src/utils.cpp: the value helpers of setParam; Utils/Apply: applyModuleKV
--   Packet               src/common.h, src/packet.cpp: packets, freeNode, checkDirection; calcChance
--   Packet/Sweep         the loop shared by src/drop.cpp, src/burstloss.cpp, src/blackout.cpp
--   Packet/Collect       the buffering loop of src/lag.cpp, src/jitter.cpp, src/throttle.cpp;
--                        Packet/Gathered: what it leaves
--   Latency              src/latency.cpp
--   Packet/Rewrite       the loop shared by src/tamper.cpp, src/corrupt.cpp, src/reset.cpp
--   Drop, BurstLoss, Blackout, Lag, Throttle, Bandwidth, Jitter, Ood, Duplicate, Tamper, Corrupt, Reset
--                        the module of that name in src/, with its proofs in the folder of that name
--   Filter               src/filterexpr.cpp: extractFields, compare, evalNode, filterMatch
--   Filter/Lexer, Filter/Parser
--                        the classes Lexer and Parser, filterCompile
--   Filter/Derive        collect, splitOr, buildMatch, emitRules, dedupeRules, filterDeriveIptables
--   Checksum             src/packetutil_linux.cpp: parse, the checksums, packetGetPayload, packetSetTcpRst
--   Json, Json/*         src/json.cpp: Json/Strings the texts, Json/Parser the class Parser and jsonParse
--   Scenario, Scenario/* src/scenario.cpp: the steps and their order, Scenario/Tick the start, tick and stop
--   Profile, Profile/*   src/profile.cpp: the table of profiles
--   Pipeline             src/divert_linux.cpp: settleVerdict, sendAllListPackets, divertConsumeStep,
--                        nfqCallback, the end of divertClockLoop
--   Pipeline/Lawful      the contract that the pipeline relies on in a module
--   Pipeline/Adapters    the Module tables of five modules as entries of the pipeline
--   Examples/*           packets, settings and texts on which the theorems are tried out
--
-- Conventions. The packet list is the list of its nodes from head->next to tail->prev, a buffer the list of
-- its nodes from the oldest on; the functions keep the names of the source, in lower case. What the source
-- changes in place is passed on: World holds what all modules share (how often rand() was called, the
-- freed nodes, the histogram), and a module's process returns an Outcome. A DWORD is a number below 2^32
-- with the wrap-around written out; a text is a String, or the list of its character codes. rand() is
-- an arbitrary sequence of numbers, malloc an arbitrary sequence of answers; the C library's conversions
-- (Libc, Conversions), the formulas of the jitter distributions (Sampler) and what iptables matches
-- (Iptables) are parameters. So are the doubles of the JSON reader (Double) and of a scenario's metrics (Real),
-- which a tick reads once from the modules, and the gaps between the bit errors of corrupt.
--
-- Fuel. The buffering loop goes back to the tail after each packet it takes: n (n + 1) + 1 turns are enough for n
-- packets, and with them it is shown to equal a single pass. The recursive descent gets six units of
-- fuel for each character and ten more; it is shown never to run out. A checksum is folded in two turns, which
-- are enough for 32 bits. The JSON reader gets three units for each character and one more, and is
-- shown to run out on no text. The loop of flipBits gets one unit more than there are bits, which
-- is shown to be enough. evalNode gets one unit more than the
-- root's index, since operands stand before the nodes that use them. splitOr and the rule derivation
-- have the limits of the source.
--
-- Not modelled: getParams and other text output; doubles (Bandwidth counts thousandths of a byte exactly);
-- threads, sockets, files, the HTTP server, the control API, and the readers of the files of scenarios and profiles;
-- the Windows backend, whose pipeline has the text of the Linux one.
pub mod Prelude
pub mod Latency
pub mod Packet
pub mod Utils
pub mod Drop
pub mod Duplicate
pub mod BurstLoss
pub mod Blackout
pub mod Lag
pub mod Jitter
pub mod Ood
pub mod Throttle
pub mod Bandwidth
pub mod Filter
pub mod Checksum
pub mod Pipeline
pub mod Tamper
pub mod Corrupt
pub mod Reset
pub mod Json
pub mod Scenario
pub mod Profile
pub mod Examples
