-- ===== src/Lib.antt =====
-- Verification of dgo, a Go library for the Discord API: its rate limiters, its coordination of Gateway
-- connections, its cache of guilds, and its end-to-end encrypted voice.
--
-- The program. A Session sends REST requests through a rate limiter (ratelimit.go) that finds the bucket
-- of a route, waits for its limits and learns new ones from responses. A Gateway connection has one
-- goroutine that writes to its websocket (gateway_write.go), at most 120 messages in 60 seconds. Before
-- it identifies itself it asks the Identify coordinator (sharding.go), which keeps the quota of session
-- starts and the five-second gate of each concurrency bucket. A shard manager opens and closes the
-- connections of all shards. Events that arrive are passed to handlers (event.go), and first to the state
-- cache (state.go), which keeps the guilds with their members, roles, channels, threads and messages and
-- computes permissions from them. Voice packets are encrypted as DAVE frames (dave_crypto.go), whose
-- nonces and keys a DAVE session keeps (dave.go). The session follows the epochs of an MLS group
-- (mls/session.go), driven by the messages of a voice connection (voice.go); MLS messages are written in
-- the TLS presentation language (mls/mls_internal.go).
--
-- The model, file by file:
--   Prelude       names of the libraries, tests into Bool, integers over the native numbers, maps as
--                 association lists
--   Window        the loop that cuts expired times from a slice, in gateway_write.go and ratelimit.go
--   Uleb          encodeULEB128 and decodeULEB128 of dave_crypto.go
--   Frame         encryptSecureFrame, parseSecureFrame, decryptSecureFrame, buildNonce and
--                 hashRatchetGetKey of dave_crypto.go
--   GatewayWrite  enqueue, run, waitForSlot and failPending of gateway_write.go
--   Identify      IdentifyCoordinator of sharding.go, with SessionInformation of structs.go
--   Shards        Open, Close and closeSessions of ShardManager in sharding.go
--   Shards/Create NewShardManagerWithConfig of sharding.go
--   Events        the event handlers of event.go
--   Tls           tlsWriter and tlsReader of mls/mls_internal.go
--   Dave          EncryptFrame, DecryptFrame and acceptNonce of dave.go
--   Dave/ParseUint, Dave/UserId    ids as numbers and bytes
--   Dave/Group    what dave.go calls of GroupSession, a record of functions
--   Dave/Epoch    DAVESession with its group: NewDAVESession, Configure, ResetForReWelcome,
--                 HandlePrepareTransition, HandlePrepareEpoch, Reset
--   Dave/Epoch/Calls    HandleWelcome, HandleCommit, HandleProposals, HandleExecuteTransition and
--                 deriveSenderKeyLocked
--   Dave/Epoch/Media    createReceiverLocked, and the methods as calls in a sequence
--   Voice         handleDAVEBinary, recoverDAVEGroup and the other DAVE handlers of voice.go
--   Gateway       what onEvent and listen of wsapi.go keep of a session to resume it, and onReady of
--                 event.go
--   MembersRequest      requestGuildMembers of wsapi.go and its cooldown
--   State         the data of state.go: its records, the heaps that pointers refer to, slices
--   State/Index   the maps of the cache and the lookups in them
--   State/Guilds, State/Members, State/Roles, State/Channels, State/Threads, State/Messages
--                 the operations of state.go on these, additions, removals and lookups
--   State/Permissions   UserChannelPermissions, MessagePermissions, colours; memberPermissions of
--                 restapi.go
--   State/Dispatch      onReady and OnInterface, with the events of events.go
--   RateLimit     the bucket cache of ratelimit.go: getBucket, cleanupBucketsLocked,
--                 makeBucketRoomLocked, setBucketHashLocked, registerBucketHash
--   RateLimit/Budget    proactiveGlobalWait and reserveGlobalRequest
--   RateLimit/Circuit   RecordResponse, InvalidRequestStatus, CheckInvalidRequestLimit
--   RateLimit/Lock      GetWaitTime, LockBucketObjectContext and its callers
--   RateLimit/Release   Release, ResetAfter and ApplyGlobalLimit
--   RateLimit/Keys      restRateLimitKeys, normalizeRateLimitPath, hashRateLimitMajorParameters
-- The children of a file prove what their names say; Examples holds runs on concrete inputs.
--
-- Conventions. A time is a number of nanoseconds, and 0 is Go's zero time. An `int` that can be negative
-- is an integer; a setting that the code compares by `<= 0` is a number, with 0 for all of these. A
-- function under a mutex is one step on an explicit state, so that an interleaving of goroutines is a
-- sequence of steps. Where a function leaves its mutex to wait, what the other goroutines do meanwhile is
-- a function on the state, given for each round of its loop. Readings of the clock, outcomes of waits and
-- writes, and the branches that a `select` takes are arguments. The order in which `range` meets the
-- entries of a map is the order of the list. Buckets are shared by pointer, so they live on a heap, and so
-- do the guilds, channels and members of the state cache, whose maps and slices hold addresses. A record
-- of the cache has the fields that its operations use, and one field `other` for all the rest. The
-- `sort.Sort` of the roles is an argument. Permission bits are numbers, read bit by bit. The group of a
-- DAVE session has an abstract type, and its errors are numbers.
--
-- Bounds and fuel. encode_loop has five rounds, enough for 32 bits. The loops that evict have as many
-- rounds as there are entries, since a round drops one. The loops that wait run over a list of rounds; a
-- result of its own says that the list has run out, and a theorem for each loop says how many rounds
-- are enough.
--
-- Parameters. AES-GCM and the counter mode of AES are a record of functions and laws (Frame.Cipher), and
-- mls.ExpandWithLabel is a function that may fail. The 64-bit replay window of a DAVE receiver is a
-- function from the number of a bit.
--
-- Not modelled: the MLS group (mls/session.go), which stands on cryptographic libraries; the rest of a
-- voice connection (voice.go) and of a Gateway connection (wsapi.go), which are mostly input and
-- output; a nil State, and slices of the cache that share an array; the REST wrappers and the data
-- types; generated code.
pub mod Prelude
pub mod Window
pub mod Uleb
pub mod Frame
pub mod GatewayWrite
pub mod Identify
pub mod Shards
pub mod RateLimit
pub mod Events
pub mod Tls
pub mod Dave
pub mod State
pub mod Voice
pub mod MembersRequest
pub mod Gateway
