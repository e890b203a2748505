-- ===== src/Lib.antt =====
-- Roodox is a file server for small teams: clients read and write the files of a shared root over
-- gRPC, the server numbers every version of every file in an SQLite database and keeps its
-- content, and advisory locks let clients agree on who edits.
--
-- The parts, and the files that model them:
--   Base    the shared names: Boolean tests on native numbers, lists, bytes, signed integers with
--           the int64 wrap-around, and maps from bytes (Go maps and tables with a path as key);
--   Errors  errors as values, with the classes that the program tells apart, and toGrpcError of
--           internal/server/error.go;
--   Fs      Fs.RelPath is internal/fs/path.go with filepath.Clean of a Unix build: split, join
--           and clean are the standard library's, normalize_relative_path is
--           NormalizeRelativePath. Its children are about segments (Segments), the paths that it
--           accepts (Inside) and those that it rejects (Climbs). Fs.Root is ResolvePath,
--           IsWithinRoot and NormalizeProjectPath, with filepath.Join and filepath.Rel. Fs.Ignore is
--           internal/fs/ignore.go, and Fs.Disk the files below the root with the calls of
--           internal/fs/filesystem.go and of package os that the services make;
--   Lock    Lock.Manager is internal/lock/manager.go: a Manager is the map from paths to
--           LockInfo with the default time to live, and acquire, renew, release and
--           cleanup_expired are its methods, each given the time that it reads. Lock.Service is
--           internal/server/lock_service.go: a request's path is normalised, its seconds become
--           a duration by an int64 product, and the manager's answer becomes the response;
--   Db      Db.Tables are the tables of schema version 1 (internal/db/migrations.go); Db.Tx is
--           withWriteTx, Db.Versions the version store (internal/db/version.go: AppendSnapshot,
--           SaveFileSnapshot, AppendDeleteSnapshot and the readers), Db.Renames its
--           RenamePathTree, and Db.Metas internal/db/meta.go;
--   Server  Server.Mutations is internal/server/file_mutation_support.go: a Store is the disk and
--           the tables, resolve_file_head is ResolveFileHead and mutation_save SaveFileSnapshot.
--           Server.Conflicts writes conflict copies (also internal/conflict/conflict.go), and
--           Server.Copies removes them. Server.Sync is WriteFile of
--           internal/server/sync_service.go: do_write_file is doWriteFile, in the steps write_path
--           (the path), write_known (the head) and write_at_head (the version check and the
--           write). Its children are about stale base versions (Stale), the others (Accepted),
--           what all calls keep (Kept), and a call after one whose save failed (Retry).
--           Server.Ranges is applyRangeMutation and resizeFileData of
--           internal/server/core_service.go, Server.Core its WriteFileRange and SetFileSize
--           (write_file_range and set_size), and Server.Tree its Delete, Rename and Mkdir.
--           Server.Reads has ReadFile and ReadFileRange of that file, and GetFileMeta,
--           ListChangedFiles and WriteFileStream of the sync service; Server.VersionService is
--           internal/server/version_service.go.
--           Server.Builds is cleanupJobs and appendLogWithLimit of internal/server/build_service.go.
--           Server.PathLocker is internal/server/path_locker.go: a call of Lock or LockMany is a
--           process with the mutexes that it holds and those that it wants;
--   Devices the registry of devices of internal/db/device_registry.go and device_registry_admin.go,
--           by its calls: Devices.Reports (Register, the reports and the reads), Devices.Rows (the
--           rows that they write), Devices.Policies, Devices.Actions and Devices.Diagnostics. A
--           Registry is the four tables, and a Call what one call takes from outside: the time,
--           random bytes, and the error that the engine reports to a write or a read, if any.
--           Devices.ControlPlane is internal/server/control_plane_service.go, its settings
--           Devices.Config and its reports Devices.Reporting; Devices.Console, Devices.Summaries and Devices.Join are
--           internal/server/admin_console_service.go, and Devices.Bundle is
--           internal/accessbundle/bundle.go. Devices.Requests are histories of requests: what
--           becomes of actions (Beats, Deliveries), of diagnostics (Uploads) and of policies (Pulls), and
--           overlapping calls (Races);
--   Cleanup Cleanup.Runner is internal/cleanup/runner.go: a Runner has the state of the loop, the
--           timer and the trigger channel, and on_trigger, on_timer, run_now, schedule_at and
--           stop_timer are the cases of its select and its closures. Cleanup.Janitors is
--           cleanupFilesByPolicy of internal/serverapp/file_janitors.go;
--   Observability
--           internal/observability/recorder.go: the Recorder, and Observability.Sampler its
--           durationSampler.
--
-- How they interact: each service normalises the path that a request names, and the locks, the
-- meta rows and the versions are all kept under the normal form. A save numbers a version, writes
-- the meta row and appends the record and its content in one transaction. The file services change
-- the disk first and the database then, in a call that holds the locks of its paths; a runner calls
-- a janitor, and the answer of the janitor is when the runner sets its timer.
--
-- Time and faults. The clock is an argument of each call of the lock manager; its mutex makes a
-- call one step, so an interleaving of clients is a list of calls. The database engine is not
-- modelled: a transaction is a function of the tables, and for each attempt an argument says which
-- error the engine reports at Begin, at a statement or at Commit, if any. An attempt that fails
-- leaves the tables as they were: that Rollback takes back its statements is left to the engine.
-- The disk is a map from normal paths to files; for each call an argument says which
-- error it meets, if any, and a write may break off after some bytes. Directories are not in the
-- map: what goes wrong with them is such an error. The hash function is a parameter. The path's
-- lock is held during a call that changes files, so such a call is one step. withWriteTx makes at most five attempts,
-- and the loop's fuel is that number; the waits between attempts are left out. Version numbers
-- are not bounded: a counter of 64 bits that grows by one for each save does not overflow in
-- practice.
--
-- writeConflictFile tries at most 32 names, which is the fuel of its loop. For each try arguments
-- say how the write goes and whether the removal after a torn write fails, which the code ignores.
-- The most bytes that make can give is an argument of the calls that build a content in memory:
-- beyond it make panics, no handler recovers, and the client sees the server as unavailable. Request paths are valid
-- UTF-8, as gRPC strings are, so RenamePathTree cuts the same prefix by bytes as by characters.
--
-- A request of a device or of the administrator is several calls of the registry, each atomic.
-- Histories serve requests one after the other. The string
-- lists in JSON columns stand as lists, since encoding/json reads back what it wrote.
--
-- Not modelled: ListDir and Stat of the core service, the builds themselves, the creation of the
-- tables of devices, what the administrator asks of the runtime, how the janitors collect their
-- items, reading the configuration, security, backups, and process control. Logging, gRPC and the Windows-only files are I/O. Paths are those of a Unix
-- build: the separators and volume names of a Windows build are not modelled.
pub mod Base
pub mod Errors
pub mod Fs
pub mod Lock
pub mod Observability
pub mod Cleanup
pub mod Db
pub mod Devices
pub mod Server
