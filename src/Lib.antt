-- ===== src/Lib.antt =====
-- cget is a download manager: it splits a remote file into chunks, downloads the chunks with several
-- threads through libcurl, keeps the progress in task files, and puts the file together from its
-- part files. This library models its core and proves what makes it correct.
--
-- Parts and files (paths of the program from the root of the repository):
--
-- - Prelude: bytes and texts, Boolean tests, lists over native numbers, decimal numbers. A
--   `std::string` is a list of bytes (`Text`), `str "…"` a literal of the source. Unsigned words are
--   natural numbers with the wrap-around written out (`u32`, `u64`).
-- - Core/Types, Core/Types/Names (include/cget/core/types.h, src/core/types.cpp): `Chunk`,
--   `DownloadTask`, the statuses and `toString` / `taskStatusFromString`. Core/Errors
--   (src/core/errors.cpp): a function that may throw returns `Result`.
-- - Core/TaskState (src/core/task_state.cpp): `isValidTransition`; Core/TaskState/Paths has sequences
--   of allowed transitions.
-- - Core/ChunkPlanner (src/core/chunk_planner.cpp): `ChunkPlanner::plan`; Core/ChunkPlanner/Cover shows
--   that its chunks tile the file.
-- - Scheduler (src/scheduler/scheduler.cpp): `Scheduler::run`. Scheduler/Defs has one pass of its loop,
--   Scheduler/Quotas its map of quotas, Scheduler/Steps the end of a worker and the step relation
--   `Step`: a pass, a write of an executor to its task, or the end of a worker, in any order.
--   Scheduler/Limits has the invariant, Scheduler/Selection the choice of the next chunk, and
--   Scheduler/Twice a run in which one chunk gets two workers.
-- - Filesystem (src/filesystem/filesystem_service.cpp): Names (`sanitizeFileName`, `fileNameFromUrl`),
--   Paths (`isPathTraversal`, `chunkPath`), Disk (`fileSize`, `truncateFile`), Merge (`mergeChunks`),
--   Output (`resolveOutputPath`, `uniquePath`).
--   A disk is a function from paths to contents, with the calls that fail on it: the paths that cannot
--   be opened or removed, the renames that are refused, with a file in the way or without, and the
--   writes of `saveTask` that break off. The other writes are taken to succeed.
-- - Persistence (src/persistence/persistence_store.cpp): Store (`saveTask`, `loadTask`, `removeTask`),
--   whose runs list every disk that they go through, and Repair (`repairFromDisk`). What the store
--   needs of the text of a task is the interface `TaskCodec`; Codec (`taskToJson`, `taskFromJson`)
--   fills it with `json_codec`. Recovery has `loadAllTasks` and `recoverTasks`.
-- - Json (src/persistence/json.cpp): Syntax (`json::Value`; a `std::map` is the list of its members in
--   the order of their keys), Scan and Parser (the class `Parser`), Printer (`json::stringify`).
--   Texts, Shrinks, Maps, Reading, Leaves and Entries have lemmas on them, Termination and RoundTrip
--   what the parser does in the end. What the library does with `double` numbers is the parameter
--   `Numbers`; a theorem names what it needs of it in `NumberLaws` or `IsReadable`.
-- - Crypto (src/crypto/sha256.cpp): Words (the functions on 32-bit words and `Sha256::transform`),
--   Sha256 (`update`, `final`, `sha256String`, `sha256File`), Hex (`isSha256Hex`, `lowercaseHex`).
--   Streaming and Padding compare it with the hash of the whole message, and Fips writes out the
--   standard on its own, with which Fips/Agrees compares it.
-- - Network (src/network): Scheme (`ProtocolRegistry`), Http (`HttpProtocolHandler`). What libcurl and
--   the server do is a parameter, a `Transfer`: the status, the blocks of the body, and the end.
-- - Config (src/config/config_manager.cpp, src/ratelimit/bandwidth.cpp): Defs, Parse, Bandwidth,
--   Normalize, Keys.
-- - Engine (src/engine/download_engine.cpp): Metadata, Session (`persistTask`) and Retry
--   (`downloadChunkWithRetry`), which calls Network/Http, Filesystem and Persistence. Retry/Part,
--   Retry/Resume and Retry/Whole follow the part file through the attempts, Retry/Delay the pause
--   between attempts, Retry/ErrorBody the replies with an error status. Finish has `finalizePreparedTask`, with `setFailure` and
--   `verifyChecksum`; the hash of a file is an argument of it, which Crypto can fill. Single has
--   `downloadSingleStream` and `prepareTask`, and Single/Range what `downloadWithRange` does when its
--   workers have ended.
-- - Manager (src/core/download_manager.cpp): `createTask`, `pauseTask`, `removeTask`, `validateUrl` and
--   the choice of the tasks of `runQueuedTasks`; Url and Pause have theorems on them.
-- - Cli (src/cli/cli_parser.cpp): Parser has `CliParser::parse`, Accepts what it lets through.
-- - Examples: the theorems at concrete inputs.
--
-- Bounds and fuel. The loops are structural: over chunks, blocks, digits, and over the attempts that
-- are left, of which `downloadChunkWithRetry` makes at most `maxRetries` + 1. The printing of a
-- decimal number takes the number as fuel, which is more than its digits. The parser of JSON calls
-- itself on what is left of the input; its fuel is 3 times the number of bytes and 3, since between
-- two bytes that it takes there are at most three calls. `sha256File` takes at least one byte of the
-- file in a round and has as many rounds as bytes.
--
-- Not modelled: the rate limiter, the metrics and the logger (double numbers, clocks and output), the
-- start of the threads in `downloadWithRange`, and the calls of the manager that
-- join the engine and the scheduler. Locks are not modelled by
-- themselves: a step of the scheduler is what one thread does under `stateMutex`, and a worker of the
-- engine is followed alone.
pub mod Prelude
pub mod Core
pub mod Scheduler
pub mod Filesystem
pub mod Persistence
pub mod Network
pub mod Engine
pub mod Config
pub mod Examples
pub mod Cli
pub mod Crypto
pub mod Json
pub mod Manager
