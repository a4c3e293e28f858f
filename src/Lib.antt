-- ===== src/Lib.antt =====
-- PeerCache: a peer-to-peer cache of KV pages.
--
-- A node publishes pages in its memory pool (python/peercache/pool.py) and enters their addresses in
-- a directory, which is spread over the nodes by a consistent-hash ring (hashring.py): a key's
-- entry is at the owner of the first position clockwise of the key's hash, and at the next distinct
-- nodes where entries are replicated. A reader asks the owners for the location and reads the page
-- from the node that published it.
--
-- Files (paths below python/peercache of the repository):
--   Base, Base/*       shared names, tests, equality, lists, Python dicts and texts
--   Types              types.py: the records DataLocation and NodeInfo and their accessors
--   Pool, Pool/*       pool.py: PublishedPool. Pool is its fields; publish, reserve, address_of,
--                      remove, snapshot its methods, allocate is _allocate, evict_loop the while
--                      loop of it.
--   Ring, Ring/*       hashring.py: ConsistentHashRing. rebuild is _rebuild; walk is the while loop
--                      of get_nodes.
--   Directory, Directory/*
--                      directory.py: on_put, on_get, on_exists, on_delete are the handlers of
--                      DirectoryServer; owners, group_by_owner, put, get, exists, delete the methods
--                      of DirectoryClient.
--   SlotMap, SlotMap/* slotmap.py: headers, SlotGeometry and pick_way_from_bucket; SlotMap/Region is
--                      SlotRegion, whose write_local is two marks of the header around the copy.
--   DiskStore, DiskStore/*
--                      diskstore.py: DiskStore. store_file and write_index are _write up to and
--                      under the lock; DiskStore/Steps interleaves calls with the thread of _run.
--   Discovery, Discovery/*
--                      discovery.py: the handlers of DiscoveryServer, masters_from and targets of
--                      DiscoveryClient
--   Storage, Storage/* storage_server.py: prepare_writes, commit_writes, on_promote, on_pool_evict and
--                      on_disk_evict are the handlers of StorageServer; Ingest has on_ingest and
--                      republish, the republication after a change of the membership; Honest and
--                      Republish compare the directory, as their calls leave it, with the pool
--   Store, Store/*     store.py: Keys is _component_keys, _page_results and _hit_prefix; Pack the pages
--                      of several buffers; Cache _dir_get, _prime and _take_primed; Exists
--                      batch_exists; Slots the slot-map mode, with Publish for
--                      _publish_slotmap(_remote) and Fetch for _fetch_slotmap and _exists_slotmap; P2p
--                      _publish_p2p; Fetch _fetch and _resolve_non_resident
--   Node, Node/*       server.py: the rings of NodeRuntime, on_members and data_owner
--   Tests, Tests/*     runs of these on small inputs
--
-- State and concurrency. A method is a function from the state to its result and the new state;
-- the locks of the source make it one step. read_local of the slot map takes no lock:
-- read_local_during has what other threads do between its test of a header and its copy. Python
-- dicts are association lists in insertion order, an OrderedDict one whose first entry is the
-- oldest. Python's unbounded integers that are never negative are ℕ; where the source subtracts,
-- the invariants show that nothing is cut off at 0.
--
-- The region of SlotRegion and the pool of PublishedPool are ranges of one byte-addressed memory.
--
-- Fuel. walk of Ring has one more than the number of positions; results_from of Store/Keys and
-- put_chunks of Storage/Ingest have the length of the list, of which each round takes at least one.
--
-- Parameters. _hash (BLAKE2b of 8 bytes) is the parameter hash; the digests of
-- slotmap.py are digest16 and digest8; the SHA-1 digest and the
-- UTF-8 encoding of diskstore.py are sha1 and utf8, and Io says which calls of one operation the
-- operating system serves. The RPC transport of rpc.py is the
-- parameter link of the directory: a call is answered, fails before it is served, or is served and
-- its reply is lost. DiscoveryClient.control_of is the parameter resolve of the
-- directory. The clock of the discovery service is an argument of its handlers. The answer of
-- directory.exists and the addresses of temporary buffers are parameters of the storage server, and
-- its calls of directory.put and directory.delete are recorded in the field effects. In Store/Fetch
-- the answers of peers to data_promote are promote_at, and world and up are their memories and which
-- READs succeed.
--
-- Not modelled: benchmarks, examples, metrics and the socket, RDMA and native code, which only move
-- bytes or measure; the connection pool of rpc.py and the striping over rails of transport.py; the
-- checks of config.py; register, heartbeat and stop of DiscoveryClient; of store.py the writes to
-- storage nodes (_publish_storage) and the choice of the mode (_publish), clear, the registration of
-- buffers, and the wrappers of the host framework's interface around the parts above.
pub mod Base
pub mod Pool
pub mod Ring
pub mod Types
pub mod Directory
pub mod SlotMap
pub mod DiskStore
pub mod Discovery
pub mod Node
pub mod Storage
pub mod Store
pub mod Tests
