-- ===== src/Lib.antt =====
-- shario: a shared text document, edited by several peers at once.
--
-- Each replica keeps a directory of files. A file is a tree of characters, each with an identity, a
-- pair of an id and a peer, and a parent; a character that is removed stays as a tombstone. Beside
-- the tree a file keeps a projection: its lines, each a list of identities in the order of the text,
-- with the line break that opens a line at its head and a sentinel at the head of the first. A queue
-- owns the directory. It gives identities to what the local editor types, applies what other peers
-- send, holds back what waits for a parent, a tag or a target, and reports what it applies. Around
-- the queue, a server applies the messages of the IDE's socket and of the gossip of the peers, asks
-- peers for their state and answers when they ask, and a benchmark replays recorded edits.
--
-- Files, and the code that each is about:
--   Prelude       names and lemmas on tests and lists that the others share
--   Types         src/types.rs and src/shar/error.rs
--   HashMap       the operations of std::collections::HashMap that the program calls
--   Tree          src/shar/core/tree.rs
--     File        SharFile, its views and predecessor_identity
--     Search      find_crdt; Search.Ring: what its rounds find
--     Insert      add_crdt, find_tombstone, add_line_to_projection; Insert.Order is where a node
--                 belongs among its siblings, Insert.Live the insertion under a live parent,
--                 Insert.Siblings, Insert.Concurrent, Insert.Interleaved and Insert.Breaks
--                 orders of insertions, Insert.Tombstone a line break under a tombstone,
--                 Insert.Under any other character there, with Insert.Climb the climb to a live
--                 ancestor, and Insert.Grown what both kinds of insertion share
--     Delete      remove_crdt; Delete.Erase: what it takes away
--     Document    a file as one sequence of identities, and its well-formedness; Document.Rows are
--                 lemmas on rows, Document.Found is the search in a well-formed file
--     Load        SharFile::new and add_file; Load.RoundTrip: the text that was read
--     Directory   SharDirectory, routing by path; Directory.Load: loading from the file system, and
--                 Directory.Loaded what it gives; Directory.Borrowed and
--                 Directory.Routed: writes through a path; Directory.Listed: a directory in
--                 which every file is found by its path (Listed.Shape is what its paths are,
--                 Listed.Search the search, Listed.OnDisk loading), Directory.Repeated one whose
--                 name its path repeats, and Directory.Shown what an IDE is sent of its files
--     Edit        an insertion and what may follow it
--     Youngest    an insertion whose id is above every other, and a removal, by the file's text
--   Queue         src/shar/core/queue.rs and src/queue_wrap.rs
--     State       the fields, callbacks, paths and backlogs
--     Ide         add_ide_operation and what it calls; Ide.Frame is what it leaves alone, Ide.Drain
--                 the end of its loop, Ide.Register what it makes of tags
--     Network     what other peers send, and removals; Network.Drain: the end of its loop,
--                 Network.Frame: what the network leaves alone; Network.Counter: the counter
--     Quiet       one edit of the IDE where nothing waits; Replicas and Removals: the same edit at
--                 another replica; Paths: to_relative_path and to_local_path
--     Wrap        QueueWrap and its buffer; Received: a run of what other peers send
--   StateRequest  src/state_request.rs: a replica's state as operations; StateRequest.Bytes is the
--                 length prefix, StateRequest.Transfer both sides of a request,
--                 StateRequest.Exchange what they make of each other
--   Callbacks     src/network_callbacks.rs
--   Bench         src/bench.rs: locate, insert_char, remove_char and the loops of run. Bench.Mirror and
--                 Bench.Places are the mirror's nodes, Bench.Tracks ties mirror, queue and file
--                 together, Bench.Edits is one edit (Insertion or Removal), Bench.Patches and
--                 Bench.Replay are a trace, Bench.Start a whole run, Bench.Report percentile
--   Server        src/main.rs, src/setup.rs and the tickets of src/types.rs. Server.Discovery is
--                 the loop that asks peers, Server.Gossip iroh_gossip_subscriber, Server.Sockets
--                 on_connect, Server.Joining its first join, Server.Session the session at the
--                 proxy, Server.Setup the arguments of a benchmark, Server.Startup main itself,
--                 and Startup.Follow two replicas in one session
--   Examples      the theorems at concrete files, directories, queues, runs, peers and
--                 replicas
--
-- How the code is rendered. An operation on a file or a directory gives the new value and a result:
-- ok, err, or fault, a panic or a loop that does not end. A handler of the queue gives the new
-- queue, or none in these cases; calls of callbacks are appended to a log. The functions are called
-- one after the other: the lock around the queue makes its own operations so, but QueueWrap::new and
-- the flag and the buffer of QueueWrap are not under one lock, and what may interleave there is not
-- modelled. An id is a native number; the counter is taken modulo 2 ^ 32, as a release build
-- computes it. A HashMap is an association list. A path is the list of its components; a leading `.`
-- is one only where nothing stands in front of it. A stream is the bytes that it delivers and the
-- error behind them, and bytes and characters are numbers.
--
-- Fuel. The search has two rounds more than the file has rows, the climb from a tombstone one step
-- more than it has characters, and a drained worklist n * (n + 2) + 1 rounds for n pending
-- operations: each round applies an operation for good, or leaves fewer on the worklist.
--
-- Arguments. What is not in the repository is an argument of the definitions that use it: what the
-- file system answers, what dialling a peer gives, the order in which peers were shuffled, what
-- serde_json and base 32 encode and decode, the random topic, the proxy's answers, and whether an
-- event reaches the IDE. A theorem that needs them to behave says so in its hypotheses.
--
-- Not modelled: the builders of sockets, router and endpoint in main, the parsing by clap, the
-- logging in src/setup.rs, the clocks, the memory and the report of src/bench.rs, the lock itself,
-- and the build: they are input and output around what is modelled.
mod Prelude
pub mod Types
pub mod HashMap
pub mod Tree
pub mod Queue
pub mod StateRequest
pub mod Callbacks
pub mod Bench
pub mod Server
mod Examples
