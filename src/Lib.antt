-- ===== src/Lib.antt =====
-- hadock receives packets of high rate data over TCP, stores them in archives and tells of them by
-- messages over UDP.
--
-- The parts, and the files that model them:
--   Proto      proto.go: the protocol that packets are framed in. DecodePacket, EncodePacket and
--              DecodeBinaryPackets; a reader is a function from the bytes that are left to an
--              outcome and the bytes left behind it (Common/Reader). Proto/Compressed has
--              DecodeCompressedPackets, as steps over the reads of a gzip.Reader, with the one buffer
--              that all payloads share.
--   Replay     cmd/hadock/replay.go: the sender of the protocol. Its connection is the bytes that it
--              received and a list that says how the next copies end. Replay/Walk has walkPaths and
--              walk, which find its packets in files.
--   Notifier   notifier.go: the messages with their encoding (Notifier), the options that choose
--              among them, and the pool that groups packets between ticks (Notifier/Pool). The
--              goroutine of the pool is a step function over a sequence of events.
--   Vmu        vmu/encode.go, vmu/crc.go, vmu/vmu.go: packets encoded with their headers, sizes and
--              checksum; Vmu/Scan has scanVMUPackets of cmd/hadock/replay.go, which reads them.
--   Storage    storage/storage.go: the packets that a storage takes (Control.Can) and the directory
--              that it puts them in (Storage/Paths). Storage/Hadock has encodeHadock of
--              storage/hrdp.go and scanPackets of cmd/hadock/dispatch.go; Storage/Dispatch has Store of
--              the first over a file and runDispatch of the second, which reads such files.
--              Storage/Files has the stores of storage/files.go, over a disk (Storage/Disk) that
--              knows hard and symbolic links and may refuse a call. Storage/Archive has the store of
--              storage/archives.go, over archives that are lists of members.
--   Listen     cmd/hadock/listen.go: Convert, which turns packets into items over a channel that
--              drops what it has no room for (its goroutines are a sequence of events), and the
--              set-up of storages, notifiers and modules with the joint ones (Listen/Setup).
--              Listen/Main has the loop of runListen with the goroutine of the modules, as steps, and
--              Listen/Packets ListenPackets: a step relation of connections that are accepted, and whose
--              goroutines put their packets into one queue in any order.
--   Cascade    cascading/proxy.go: the connection to a second server, as steps over writes and dials.
--   Distrib    distrib/fetch.go: stored files over HTTP. Distrib/Monitor has distrib/monitor.go, which
--              keeps the last messages; its goroutines are a sequence of events. Distrib/Datagrams has its
--              decodeMessage, over the datagrams that a bufio.Reader takes one by one, and
--              Distrib/Monitor/Serving what it answers. Distrib/Limit has
--              distrib/limit.go (requests and ticks in time), Distrib/Browse distrib/browse.go and
--              Distrib/Download distrib/archive.go (over the calls of a walk).
--   TcpProxy   proxy.go: writes that are passed on, compressed or not, with the connection that is
--              made anew when one fails.
--   Images     internal/image/image.go: ImageLBR, over a heap of arrays that slices share, and
--              ImageI420. Images/Raster has the grey and RGB images, as functions of column and row.
--   Tools      cmd/vmucat/vmucat.go and cmd/vmuzip/vmuzip.go: their flags and filters, and the
--              counters of vmucat. Tools/Workers has the loop of vmuzip over its workers, as steps.
--   Hdk2udp    cmd/hdk2udp/main.go: the directory that is derived from a message on a stored file, the
--              parameters that tell of it (Hdk2udp/Parameters), and the way of a message from a
--              datagram to its parameters (Hdk2udp/Relay).
--   Science    internal/science/science.go: the rows of the exports of science data.
--   Svs        internal/science/svs.go and plugins/svs/svs.go: two programs that take the data of one
--              experiment apart.
--   Mmaconv    cmd/mmaconv/main.go: a program that writes the rows of one file of science data.
--   Mon        plugins/mon/mon.go: a module that counts packets and logs gaps.
--   Xxhsum     plugins/xxhsum/sum.go: a module that prints checksums.
--   Panda      the values that the code asks of the packets of github.com/busoc/panda, a package
--              that is not in the repository.
--   Common     what they share: integers as bytes (encoding/binary), io.Reader, bufio.Scanner,
--              sort.Search, sort.Slice, strings as bytes.
--
-- How they interact: Replay writes what Proto reads; the instances of Proto and the channels of the
-- Notifier are looked up by the same binary search (Common/Search); Vmu/Scan takes apart what Vmu
-- encodes, and Replay/Walk/Archives follows such files by Replay to Proto. Several replays at a time
-- meet in Listen/Packets/Origins; Mmaconv/Agreement compares two programs on the same bytes. Hdk2udp
-- reads the messages of the Notifier and derives from them the directories of stored files.
-- Listen/Main/Pipeline follows packets from Replay by Proto and Listen to the archives of Storage,
-- Hdk2udp/Relay/Delivery messages from the Notifier to the readers of parameters, and
-- Distrib/Datagrams/Messages messages from the Notifier to the monitor.
--
-- Numbers are unbounded naturals; conversions wrap by `% 2 ^ w`, and theorems state the ranges that
-- they need. Signed integers stand by their bit patterns. Loops that are not structural take fuel: the
-- fragments of a packet and the rounds of a stream have one more than the bytes left, and each round
-- takes a byte at least; the binary search has the length of its range, which each round halves; the
-- levels of a directory are two deep; the exports and the rows of mmaconv have the length of their
-- bytes, and the scan of a file one more, where each token takes four bytes at least.
--
-- Not modelled: connections, files, logs and the flags of the commands, which are I/O; the checksum of
-- the protocol, a parameter of Replay; the order of a Go map, which stands as that of a list, or as a
-- function from its keys; the checksum comparison of DecodeBinaryPackets, which has an empty body;
-- path.Join, the fields of a time, the token bucket, the rolling writer, the encoders, the image
-- packages, compress/gzip, protobuf, the hashes of xxh and what panda computes, which are parameters;
-- races of goroutines within one step, as on the counters of Convert; the packages under
-- cmd/hdk2udp/internal, which are generated, and TcpForwardPlugin, which is C++.
pub mod Common
pub mod Images
pub mod Listen
pub mod Mmaconv
pub mod Mon
pub mod Notifier
pub mod Panda
pub mod Proto
pub mod Replay
pub mod TcpProxy
pub mod Tests
pub mod Science
pub mod Storage
pub mod Svs
pub mod Tools
pub mod Vmu
pub mod Xxhsum
pub mod Cascade
pub mod Distrib
pub mod Hdk2udp
