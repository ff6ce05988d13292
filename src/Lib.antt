-- ===== src/Lib.antt =====
-- nospoon, the C++ program under cpp/: a VPN whose server and clients find each other through a DHT
-- and carry the packets of a TUN device over encrypted streams.
--
-- The parts and how they interact. A stream carries bytes; the framing codec (cpp/framing.hpp) cuts
-- them into packets. The client (cpp/client.cpp) frames what its TUN device reads and writes the
-- packets it decodes; it dials the server, waits between failures, and after three makes the DHT
-- anew. The server (cpp/server.cpp) keeps a state per peer and a routing table (cpp/routing.hpp)
-- from addresses to streams; it checks each packet's source, and passes it to the peer that has its
-- destination or to its TUN device. Both start from a configuration (cpp/config.hpp) whose fields
-- are checked (cpp/validation.hpp). Full tunnel (cpp/full_tunnel_linux.cpp) sets routes, rules and
-- DNS; there are versions of it for macOS and Windows. The TUN device (cpp/tun.hpp) has a backend
-- for each system. The commands (cpp/commands.cpp) make configurations and client files and probe
-- the DHT.
--
-- The files. Base: lists, byte strings, association lists, numerals, `int`. Framing: FrameDecoder
-- as its buffer; `turn` and `classify` are the body of the loop, `drain` the loop, `feed` and
-- `reset` the members; Drain has the loop's relation, Stream the chunks, Wire what is sent, Bounds
-- the sizes. Validation: `validate_hex64`, `validate_cidr`, `validate_cidr_v6`, `validate_mtu`; the
-- pattern of the CIDR check is a matcher with continuations (Scan, Cidr, Parts, Network6). Routing: the table
-- as an association list, and the address printers (Table, Address, Zeros, Longest). Config:
-- `load_config` with its exits as values; Strip, Json, Text, Key, Hex and Checked have the readers
-- and their theorems. Stream: the handshake. Client and Server: the contexts as records, each
-- handler a function to the new context and the calls it makes, in order; Client.Run and Server.Run
-- have start, events, loop and cleanup, the other children their theorems, and Server.Subnet the
-- subnet that is masqueraded. FullTunnel: the two globals as records, the commands a call runs as a
-- list of actions (Rules, Routes, Undo); FullTunnel.Macos and FullTunnel.Windows the same for their
-- files (the texts that macOS prints in MacosText), with the shared lemmas on what is added and
-- deleted in FullTunnel.Ledger. Tun: the device's members and the laws that the callers rely on as
-- two records; Tun.Linux, Tun.Macos and Tun.Windows fill them, Descriptor, Netmask and Loader are
-- what they share or load, Ring is the thread of Windows and its callback, Lifecycle a program's
-- calls over any device, Loopback the bytes of a packet. Commands: the allocation of hosts (Hosts,
-- Addresses), options (Count), client files and their names (Clients, Names), `init` and
-- `addclient` (Init, Inited, Addclient, Added), the texts they are to write (Wanted), the place of
-- the entries (Brace), the callbacks of check (Check), files with seeds
-- (Save), the seed of genkey (Genkey), what inspect and genkey print and how check starts
-- (Inspect), a client's file as it is read (ClientText, ClientFile, over Config.Plain and
-- Config.Number) and the peers that are added (Allowlist, over Config.Pairs and Config.Block).
-- ConnectError: the hints for the codes of the DHT library (cpp/connect_error.hpp). Main: the
-- choice of the command.
--
-- Numbers and bounds. A byte is a number, a text and a buffer the list of their bytes; a pointer is
-- a number, 0 is null. `dht_generation` wraps at 2 ^ 64. `int` values that come from texts are
-- whole numbers without a bound, since a number beyond `int` is undefined in `atoi`; `stoi` refuses
-- it. The decoding loop runs on fuel, one more than the bytes of the buffer, which is enough since
-- each round that goes on takes four bytes or more; the pairs of `json_peers` are read on fuel too,
-- one more than the bytes of the block, and fuel beyond that changes nothing (`read_pairs_fuel`).
-- The search for a free file name runs on fuel, one more than there are files.
--
-- What the program takes from elsewhere is a parameter: key generation, results of the DHT, exit
-- codes and output of other programs, files, random bytes, the answers of system and driver calls,
-- what a file holds behind a write that is not checked.
--
-- Not modelled: log lines, the commands' error messages and the lines that check prints as it goes;
-- the vendored header cpp/wintun/wintun.h; the JavaScript program, the packaging and the scripts.
pub mod Base
pub mod Framing
pub mod Routing
pub mod Validation
pub mod Config
pub mod Stream
pub mod Client
pub mod FullTunnel
pub mod Commands
pub mod Main
pub mod ConnectError
pub mod Tun
pub mod Server
