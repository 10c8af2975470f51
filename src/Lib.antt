-- ===== src/Lib.antt =====
-- BackupX: the core of the backup server, as definitions translated from its Go code and theorems
-- about them.
--
-- A master schedules backups, runs them itself or hands them to agents over a queue of commands,
-- stores the archives at several targets, and deletes old ones by a retention policy. A backup into
-- the repository is cut into chunks by the chunker; chunks that no index has go into packs. A cleanup
-- run prunes the packs that no snapshot needs. The files:
--
-- - Chunker: the content-defined chunker of the CDC repository
--   (server/internal/backup/repository_chunker.go: newContentDefinedChunker, findCutPoint, Split).
-- - Repository: the deduplicating store of packs, indexes and snapshots
--   (server/internal/backup/repository.go), with the data in Repository itself. Files has what a
--   backup walks over (with normalizeExcludePatterns and shouldExcludeEntry of
--   server/internal/backup/file_runner.go), Plan is BuildPlan, Packs is uploadPack, Upload has
--   Upload, uploadMissingChunks and EstimateUploadSize, Codec the chunks (encodeChunk, decodeChunk,
--   chunkID, encrypt, decrypt, readChunk), Keys and Index the segments of the index
--   (readIndexSegment, loadIndex), Snapshot the snapshots (validateSnapshot, encodeSnapshot,
--   loadSnapshot), Export has ExportTar and the bytes that Restore writes into a file, Verify and
--   Prune the methods of these names. Hex, Paths and Spaces are functions of Go's packages, Slices is
--   about parts of byte lists, and World, Buckets and SmallBackup are concrete packages, a concrete bucket
--   and a concrete plan for the tests.
-- - Retention: Calendar has the periods of the GFS tiers, Select the choice of the records to delete
--   and the protection of the bases of differentials, Cleanup the run that deletes objects, rows,
--   unused packs and empty directories (server/internal/backup/retention/service.go).
-- - Window: maintenance windows (server/internal/backup/window.go).
-- - AgentQueue: the table of the agents' commands with its operations
--   (server/internal/repository/agent_command_repository.go), in Summaries the queue by node, and
--   in Service what the master does with it (SubmitCommandResult, EnqueueCommand,
--   processStaleCommands, commandStillActive and failLinkedRecord of
--   server/internal/service/agent_service.go).
-- - LogHub: the live logs of records and their subscribers (server/internal/backup/log_hub.go).
-- - Supervisor: background tasks and their shutdown (server/internal/lifecycle/supervisor.go).
-- - RateLimiter: login attempts (server/internal/security/rate_limiter.go).
-- - ClusterVersion: the monitor of outdated agents (server/internal/service/cluster_version.go).
-- - Backint: the files of the SAP HANA protocol (server/internal/backint/protocol.go).
-- - Base: Boolean tests, lists, integers and texts that the others share, with the functions of
--   Go's strings and unicode packages.
--
-- How code becomes definitions. A method that changes a struct takes the state and returns the new
-- one; what runs under a lock or in one transaction is one step, so that the lock is not part of the
-- state, and interleavings are lists or relations of steps. Errors are options or constructors. Numbers are the native naturals, with the
-- wrap-around of unsigned words written out; texts are lists of code points, or of bytes in
-- Repository; instants are nanoseconds, with the calendar of UTC. A map is an association list or the list of its keys.
-- Records keep the columns that the modelled code reads.
--
-- Loops are structural, but for two. The inner loop of Split has as fuel the number of pending bytes,
-- which is enough because every cut removes one at least (Chunker/Drain). The loop of
-- validateSnapshot from a path to the root has the length of the path: a parent is shorter.
--
-- Arguments stand for what lies outside: the reader, the context and the callback of Split, the
-- database and the storage providers of a cleanup run, and the decoders of JSON payloads; for the
-- repository its storage provider, over a state of any type, the packages for hashes, ciphers,
-- compression and encodings, the random bytes, the time, the tree of files with what reading them
-- gives, and path.Match. Local temporary files are written without failures.
--
-- Not modelled: the HTTP layer, configuration, wiring, the database, storage adapters, database
-- dumps and the agent's process, which are input and output; the directories, symlinks and
-- attributes of a restore, which go through os.Root; scheduling, execution, verification records,
-- authentication and node services.
pub mod Base
pub mod Chunker
pub mod Retention
pub mod Window
pub mod AgentQueue
pub mod LogHub
pub mod Backint
pub mod ClusterVersion
pub mod RateLimiter
pub mod Repository
pub mod Supervisor
