-- ===== src/Lib.antt =====
-- coScout, the collector agent on a device: it watches files and messages, applies diagnosis rules
-- to them, and uploads what the rules or the user ask for, from its own disk and from slaves.
--
-- The parts and their files:
--   Budget: internal/queuedbytes/budget.go, the bytes that waiting HTTP rule messages hold. Calls are
--     functions on the counter and the reservations (Budget.antt); Budget/Interleave runs the loads
--     and compare-and-swaps of TryReserve and Release as single steps of goroutines under a
--     schedule; Budget/Body is ReserveBody with the counting reader; Budget/Protocol follows one
--     message through ClaimMessage, AdmitMessage, AbortMessage and FinishMessage.
--   Locks: internal/collector/upload_lock.go and record_registry.go. `Registry` is what their
--     callers rely on, Locks/UploadLock and Locks/RecordRegistry implement it, and Locks/Holders
--     is about the goroutines that take keys and release them.
--   DedupQueue: pkg/upload/queue.go, the queue of record caches that wait for an upload.
--   OrderedQueue: internal/log_reader/ordered_queue.go, the window that orders log lines.
--   Rule: pkg/rule_engine. Rule/Validate is ValidateApiRule of integration.go, Rule/Errors the
--     results of type.go, Rule/Debounce EvalConditions of rule.go. Rule/Engine is
--     internal/mod/rule/engine.go: the update of the rules from the API with the validation above
--     it (Engine), ConsumeNext with the debounce times and their cleaning (Consume), one call after
--     the other (Isolation), and the two actions with the
--     limits of uploads (Kwargs, Upload), which fill in the draft of a collect info. Rule/Actions is
--     action.go, the arguments of an action with their embedded expressions.
--   CollectInfo: internal/model/collect_info.go, drafts and their publication, which the engine
--     calls after the actions of a rule.
--   CacheLock: internal/model/record_cache_lock.go, the mutexes by key: a step relation over goroutines
--     and a store of mutexes.
--   FileState: internal/mod/rule/file_state_handler/file_state_handler.go, what is known of each file.
--     FileState has the state and its storing, Process the visit of one file, Stages the rounds
--     before a file is processed, Cleanup the states that are deleted, Rollback the walk with its
--     checkpoints, Update the two updates, Files the choice of files for the engine.
--     FileState/Listening runs updates of the listened directories, rounds and marks one after the
--     other; each step is the whole call.
--     FileState/Sending is sendFilesToBeProcessed of internal/mod/rule/handler.go, a round over them.
--   SymWalk: pkg/utils/symwalk.go, the walk that follows symbolic links. SymWalk/Finite says what a
--     finite disk is, SymWalk/Tree what there is to list.
--   RecordCache: internal/model/record_cache.go, with RecordCache/Updates for the updates of one file.
--   Collecting: what internal/mod/rule/handler.go does with collect infos. Collecting/RuleFiles is
--     ComputeRuleFileInfos of pkg/upload/file.go over the walk, Collecting/Handle is
--     handleCollectInfo, which validates the window (TimeWindow), updates and filters the file
--     states (FileState), asks the slaves (Slave), saves a record cache (RecordCache) and removes
--     the collect info (CollectInfo), and Collecting/Scan is the scan over all of them.
--   UploadFiles: ComputeUploadFiles of pkg/upload/file.go, the files of the folders and the
--     additional files of a task in its window (TimeWindow), over the same walk (SymWalk).
--   RuleQueue: the channel of rule messages in internal/mod/rule/handler.go, between the HTTP
--     subscriber, which claims bytes of the Budget, the readers of files, and the engine.
--   Cdr: pkg/mcap_ros2/cdr_reader.go, the reader of CDR data. A method takes the reader's state and
--     gives a value, an error or a panic.
--   Message: readPrimitiveValue and readPrimitiveArray of pkg/mcap_ros2/message_reader.go.
--   Slave: internal/master. Slave/Registry is SlaveRegistry of types.go, Slave/Paths the paths
--     `slave://id/path`, Slave/Limited and Slave/Files are file_manager.go with the download of
--     client.go.
--   RateLimit: pkg/upload/transport_limiter.go, bodies that are read at a limited rate.
--   TimeWindow: pkg/upload/time_window.go.
--   Prelude: tests on native numbers, lists, Go strings as bytes with TrimSpace, integers.
--
-- Go's int64 values are integers: the sums that the code forms stay far below 2^63, and where it
-- guards against overflow by a subtraction, the subtraction is written out. Conversions between
-- widths are written out. Times are integers in seconds or nanoseconds, as the code compares them.
-- A mutex makes an operation one step; where the code uses atomics, each of them is a step.
--
-- Fuel: up and down of container/heap move to a parent or to a child in each round, so the heap's
-- length is enough; the loop of DumpRemaining takes a log in each round, so the queue's length is
-- enough; TrimSpace drops a byte in each round, so the text's length is enough; the search for
-- expressions goes on by a byte at least, so the text's length is enough for it too; the walk over
-- links has the depth of its recursion as fuel, of which the number of real paths behind links and
-- the height of the directories bound what it needs.
--
-- Parameters stand for CEL, for Go's %q, for the parsers of durations, floats and resource names, for
-- what a float64 computes, for the JSON of a scope, for uuid.New, for the file system, what the file
-- handlers give, what the handling of collect infos gets from ComputeUploadFiles, for doublestar's
-- patterns, for sort.Slice, for the HTTP exchange, for the JSON decoder and for WaitN of
-- golang.org/x/time/rate. The removal of a
-- temporary file after a save is taken to succeed.
-- Not modelled: logging, the HTTP servers and clients, the file system, the remote API, the
-- configuration, the MCAP and log file formats, and the upload client, which are mostly calls of
-- libraries.
pub mod Prelude
pub mod Budget
pub mod DedupQueue
pub mod SymWalk
pub mod TimeWindow
pub mod Cdr
pub mod Message
pub mod Slave
pub mod Rule
pub mod OrderedQueue
pub mod Locks
pub mod RateLimit
pub mod CacheLock
pub mod CollectInfo
pub mod RecordCache
pub mod Collecting
pub mod UploadFiles
pub mod RuleQueue
pub mod FileState
