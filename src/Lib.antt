-- ===== src/Lib.antt =====
-- A verification library for PiPilot's bridge, the Source Hub that runs on a computer and stands
-- between phones and the pi processes there, and for the service where the two find each other. It
-- follows the TypeScript of bridge/src and rendezvous/src, and the part of extension/src that goes back
-- in a session. The parts are modelled one by one as the server composes them; what they share is the
-- JavaScript `Map` and the access to JSON values.
--
-- - Base: tests, lists over the native numbers, `Map` in insertion order with its laws, JSON values
--   with the accesses of the code to them, and the string functions that the code uses.
-- - Lease: bridge/src/owner_lease.ts. Who may drive a source: `OwnerLeaseManager` as explicit state,
--   `acquire`, `renew`, `validate`, `release` and the rest as functions of the state, the clock and
--   the id that they make. Lease/Fencing and Lease/Grants prove.
-- - Replay: the ring of events that a source keeps, with its byte budget, and the runs of sequence
--   numbers in it (`pushEvent`, `canReplay` of bridge/src/source_registry.ts).
-- - Registry: bridge/src/source_registry.ts. State has the records, Metadata, Streams, Syncs and
--   Leasing have `register`, `setSnapshot`, `recordDesktopEvent`, `sync` and so on; each source has a
--   lease manager and a ring. Invariant, History, Changes and Steps treat every history of calls,
--   Delivery and Continuity what a client is sent. `HubCursor` is of bridge/src/hub_protocol.ts.
-- - Frame: bridge/src/p2p_frame_v2.ts, the binary frame, written to and read from bytes.
-- - Transfer: bridge/src/p2p_transfer_v2.ts. Encode has `encodeTransferV2`, Retained the sender's
--   `TransferRetainedStore`, Assembler, Begin, Pages and Handlers the receiver's
--   `TransferV2Assembler` with `onFrame`; Caps, Within, Stored, Measured, Delivered, Budget, Resend, Stream,
--   Paging, Ends and Delivery prove.
-- - Pool: bridge/src/pi_pool.ts, with what it uses of bridge/src/pi_process.ts. State, Closing and
--   Opening have the operations of `PiPool`; Claims, Steps, Moves, Reach, Spares and Limit prove.
-- - Lines: bridge/src/pi_process.ts, the JSONL reader `push`, which decodes each chunk by itself; Joined
--   and Chunks prove.
-- - Notify: Event, Store and Log, Detector, Receipts are bridge/src/notification_event.ts,
--   notification_event_store.ts, notification_detector.ts and notification_receipts.ts; Acks,
--   Restart, Durable, Reuse, Once and Shown prove.
-- - Subscription: bridge/src/notification_protocol.ts over the event store of Notify. Requests has the
--   parsers, State the `NotificationSubscriptionManager`, Paging `subscribe` and `nextPage`, Live
--   `onEvent`, `drainLiveBuffer`, `markReady`, `ack` and the ends of subscriptions. Parsed, Written,
--   Skipped, Pages, Covered, CatchUp, Waiting, Full, Arrivals, Invariant, Calls and Acknowledged prove.
-- - Sessions: bridge/src/session_entries.ts. Pages has `readEntriesPage` over the lines of a file;
--   Window, Read, Cursor and Backward treat one page, Walk and Walked a client that asks for more.
-- - Hub: bridge/src/hub_protocol.ts is in Messages; of bridge/src/server.ts Streaming has
--   `noteStreamingFromEvent`, which calls the detector of Notify, Commands `handleSourceCommand` with
--   the leases of Registry, Ops the register of operations, Ask `handleAskFrame`. Edges and Gate prove.
-- - Rendezvous: Policy is rendezvous/src/key_policy.ts and bridge/src/p2p_key_policy.ts; State, Hello
--   and Rooms are rendezvous/src/server.ts with `onHello`, `onSignal`, `cleanup` and the handlers of
--   its connections as steps. Invariant, Steps, Runs and Isolation prove.
-- - Nav: extension/src/nav_commands.ts. Tree has `pathToLeaf` and `undoTargetId`, Run `runNavigate`
--   over a runtime of pi's, Cache `NavCommandContextCache`. Target and Order prove.
--
-- Conventions. A class is a record of its fields, an operation a function from the state to the
-- state and what it returns. A call that reads the clock more than once is given one reading. Ids
-- that are made at random are arguments. A thrown error is a value. Numbers are naturals; a
-- comparison of a difference is written as a sum, since a subtraction stops at 0. Callbacks are
-- returned as a list of the calls made, in order. A `Map` that the code changes while it walks
-- over it is walked as it was at the start; only entries already reached, or the one at hand, are
-- removed.
--
-- Parameters. In the registry, the ring and the frames JSON values are of an abstract type with
-- the accesses that the code makes; elsewhere they are a data type, in which a number is a whole
-- one or another. The lengths of JSON texts, and what a cap makes of an entry, are functions. The
-- JSON text of a frame's metadata is that of a codec, and the round trip asks of it that the
-- metadata at hand is restored. gzip, SHA-256, HMAC and the decoding of UTF-8 are functions. Texts in a transfer are
-- their UTF-8 bytes, and a transfer's id is its 16 bytes, which stand for their hex text. Whether
-- a process could be spawned, and how a write to the event log ended (synced, or failed with
-- nothing, all or a part of the line written), are arguments of the operations. A time in an event
-- is the number its text parses to. A lease's fence in a frame that is no natural number counts as
-- 0, which no lease has. A line of a session file that parses is an object. Waking a sleeping
-- source is a function of the registry. The calls of pi's runtime are functions of a state of its
-- own, and each may end in an error.
--
-- Fuel. `enforceCaps` of the assembler runs one round for each entry and one more: each round
-- drops an entry, and Transfer.Within shows that the caps hold when it stops. The decimal digits
-- of a number use the number and one. The loop of the line reader has a round for each character
-- and one more, and each round takes a line feed out of the buffer (Lines.Joined). A page of
-- notifications takes a round for each sequence up to the tip, since each round moves the cursor.
-- The clients of Subscription.CatchUp and Sessions.Walk ask a given number of times, and it is
-- shown how many are enough. All other loops are structural.
--
-- Not modelled. The rest of bridge/src/server.ts (sockets, timers, HTTP, the dispatch of frames,
-- the idle sweep, the handoff of a source, reads of a desktop's history), discovery and
-- configuration, the list of session files, the command queue, the chunks of version 1, WebRTC and
-- the P2P host are input and output for the most part, or rest on the parts here. The rest of the
-- pi extension, the Flutter app and the native shells are other programs of the repository. Of the
-- modelled files: statistics, the parser of stored events, checksums and file handles of the event
-- log, the UUID text of transfer ids, log output.
mod Base
pub mod Lease
pub mod Replay
pub mod Registry
pub mod Frame
pub mod Rendezvous
pub mod Hub
pub mod Nav
pub mod Sessions
pub mod Subscription
pub mod Transfer
pub mod Pool
pub mod Notify
pub mod Lines
