-- ===== src/Lib.antt =====
-- rxiu: peers on a local network share files. Each node runs a daemon (src/bin/rxiu-daemon.rs) with a
-- P2P service, and a terminal interface talks to it. A node has zones of its own files, which peers can
-- list and download in chunks, and a store of shared (RS) files, which are cut into blocks named by their
-- SHA-256 hash and spread over the members of a file. Nodes also update their own binary from peers, and
-- restart their network layer when they lose their peers.
--
-- The parts, and where they are modelled:
--   src/rs/mod.rs           Rs: RsStore. State: RsDisk, the text of metadata.json and the files under the
--                           blocks directory. Rs/Metadata has the operations on the metadata, Rs/Blocks
--                           those on blocks, Rs/Transfer put_file_from_path and reconstruct_to_path, and
--                           Rs/History the runs of any calls.
--   src/rs/sync.rs          Sync: rendezvous hashing, needs_sync, prune_unowned_blocks.
--   src/daemon/rs_sync.rs   Sync/Daemon: run_sync_if_needed, sync_rs_missing_blocks.
--   src/storage             Storage/Local: LocalBackend and the trait's read_chunk; Storage/Zones:
--                           ZoneManager.
--   src/renew, src/daemon/renew.rs
--                           Renew/Version: VersionInfo; Renew/Chunk: the chunk server of
--                           src/p2p/service.rs and the download loop; Renew/Update: the manager.
--   src/p2p/messages.rs, src/p2p/service.rs
--                           P2p/Messages, P2p/Service: the requests, and handle_incoming_request, which
--                           answers them from Storage and Rs.
--   src/p2p/service.rs, the loop of P2PService::start
--                           P2p/Loop: State has the commands, the maps of waiting commands and the state
--                           of the task; Command, Event and Timer have the arms of its select, and Run
--                           any sequence of turns. Loop/Exchange has
--                           src/p2p/protocol/peer_exchange.rs.
--   src/p2p/service.rs, the methods of P2PService
--                           P2p/Handle: a session is the loop with what will wake it, and a method sends
--                           its command and waits for the answer up to its time limit (Handle/Methods).
--   src/p2p/node.rs         P2p/Node: P2PNode over the swarm, which is an interface.
--   src/p2p/peer_store.rs   P2p/Peers: load_peers, save_peer, remove_peer.
--   src/tui/app.rs, download_file_chunked
--                           Download/Chunked: download_file_chunked, whose peer is the server of Storage.
--   src/daemon/protocol.rs, src/daemon/block_server.rs, src/tui/block_client.rs
--                           Wire: bytes on connections, with blocks from Rs; Wire/Block/Client: BlockClient.
--   src/p2p/recovery.rs     Recovery: NetworkRecovery.
--   src/daemon/server.rs, src/daemon/protocol.rs
--                           Daemon/Server: handle_client and handle_request over the records Service and
--                           SyncManager, the operations of P2PService and RsSyncManager that they call;
--                           Daemon/Protocol: the messages.
--   src/daemon/proxy.rs     Daemon/Proxy: P2PProxy, whose daemon is the server of Daemon/Server, so that
--                           the proxy is a Service again;
--                           Daemon/Proxy/EndToEnd puts it on the methods of P2p/Handle.
--   src/ui/browser.rs       Ui/Browser: FileBrowser, its keys, listing, scrolling and the rows shown.
--   src/error.rs, src/config.rs
--                           Error, Config.
--   src/tui/input.rs, src/cli/commands.rs and the state and the main loop of src/tui/app.rs
--                           Tui: App has the state, Text the operations on text, Editor the line editor,
--                           Screen, Remote, RsCommands and Prompts the commands, Files and Actions what the file
--                           browser's result and the answer to a question do, Arms and Input the dispatch, and
--                           MainLoop the events.
-- Base has what the parts share: tests, lists, text as UTF-8 bytes, dictionaries, the stable sort. Samples has
-- the data of the tests and examples, which stand in the Examples module of each part.
--
-- How code becomes definitions. A method takes the state that it works on and returns it with its result;
-- an early return by `?` is an `err` with the state reached so far. u64 sums are written with their
-- wrap-around, as in a release build. A HashMap is an association list (Base/Assoc), a HashSet a list
-- with a membership test. Paths are names: a name joined to a directory is the key of a file. This
-- is exact for plain names (Rs/Types, is_plain). The program also joins names that it does not check, of blocks that
-- peers announce and of files that are typed: `./h` or `../blocks/h` names a file a second time, and `../../zones/…` leads
-- out of the directory into another part of the model. Such names are keys of their own here, so that the theorems on
-- files that stay assume plain names. The sha2 and
-- serde_json crates are parameters (External): what is assumed of them stands in the theorems, namely
-- that what is written parses back, and that no two of the byte strings met have one hash. The CBOR crate
-- and the texts of peer ids and addresses are parameters in the same way. The semver
-- crate is one too (Renew/Version), and String::from_utf8_lossy (Wire/Block). A peer is a function from
-- its requests, counted, to its answers, so that it can answer the same request differently each time.
-- A read of a file can be short: how many bytes a call has ready is a parameter. Clock readings are
-- arguments; the clock by which the proxy's read timeout runs is one too (Daemon/Proxy/Exchange).
--
-- Loops that wait on a peer run on fuel, and the theorems say how much is enough: the download of a binary
-- and of a file need at most one round for each byte and one more, the server of blocks and the loop of
-- the daemon's connection less than one turn for each byte of their input and one more. The attempts for a
-- block, a chunk or a peer are counted down as
-- in the source.
--
-- Not modelled: disk faults other than missing files and files that cannot be created; that names which are
-- not plain can share a file; the channels and locks around the operations (an operation is one step, and a turn of the event loop one of its arms); the tasks of a sync run one after
-- the other, and those that the terminal interface spawns are recorded and not run; the building of the
-- swarm in P2PNode::new, its codec and the client side of src/daemon/client.rs; the Windows branches;
-- download_rs_file and process_pending_operation of src/tui/app.rs; what the file browser prints other
-- than its rows; src/tui/render.rs, src/cli/repl.rs with its get and put, and the process entry points;
-- formatting in floating point, of times, and Unicode's tables, which are parameters (Tui/App).
pub mod Base
pub mod Error
pub mod External
pub mod Config
pub mod Rs
pub mod Sync
pub mod Storage
pub mod Renew
pub mod P2p
pub mod Download
pub mod Wire
pub mod Recovery
pub mod Daemon
pub mod Ui
pub mod Tui
pub mod Samples
