-- ===== src/Lib.antt =====
-- ConfigFS: a server that keeps small files ("configs") with access lists in SQLite and serves them
-- over gRPC to the machines of a tailnet.
--
-- The parts of the program and how they interact. A request arrives with metadata; an interceptor
-- replaces its acl_tags by the identities of the peer (internal/api/server.go; cmd/server/main.go
-- chooses the interceptor). The handlers of internal/api/server.go check the access rule
-- (internal/proto/extra.go) on the config and on the directories of its path, and call the store
-- (internal/store/sqlite/store.go), whose operations each run in one transaction.
--
-- Prelude, Strings: Boolean tests, list functions, and the functions of the Go library on strings
--   that the program calls; Strings.Like is SQL's LIKE as SQLite has it by default.
-- Proto: messages, Directory.FullPath and Allows; Proto.Access says who is granted what.
-- Exec: Go functions that may return an error and change a shared state.
-- Store.Db: the tables of `schema`, statements, withTx. Store.Db.Ensures is a calculus for what an
--   operation has written when it returns, Store.Db.Reads for operations that write nothing, and
--   Store.Db.Keeps for those that leave a part of the tables alone.
-- Store.Acls: loadACLs, insertACLs, deleteACLs, replaceACLs and their wrappers.
-- Store.Directories: getDirectoriesByPathString, ensureDirectories and the DirectoryStore;
--   Chain is what a lookup finds, Growth, Deletion and Replacement what a creation, a deletion and an
--   update have checked and done.
-- Store.Configs: GetConfigByID, insert, update, Delete, Upsert; Effects, Lookup, Upsert and
--   Consistent are their descriptions.
-- Store.Tree: TreeForACLTags, readableDirectories, populateDirectory. Safety is about what a tree
--   shows, Readable, Fetched and Complete about what it does not leave out, Depth about its fuel.
-- Store.Migrations: NewStore on a database file of any version, as the statements that it runs.
--   Upgrade says what a file comes to, Steps to Sizes what single statements and transactions do,
--   Reopening to Returned what an attempt to open does, and Consistent is about files from before
--   content versions.
-- Store.Atomic, Store.Integrity, Store.Numbers: all operations of the store together; the last is
--   about the ids that nextInode gives out.
-- Api.Server, Api.Gates, Api.Handlers: interceptors, pathReadable and the other gates, the eight
--   RPCs. Api.Service: the RPCs as one service.
-- Client: the service as the two clients below call it; `served` answers with the handlers.
-- Fs: the file system of internal/fs/fs.go. Fs.Index is directoryMap, Fs.Snapshot the tree that a
--   mount serves and the requests that change it, Fs.Nodes the operations of directories and files
--   (Listing, Times, Writing, Changing and Making are what they promise), Fs.Bytes the content after
--   a write, Fs.Inodes the inodes of the store's rows, and Fs.MountPoint what happens around
--   mounting.
-- Pulumi: cmd/pulumi/main.go. Pulumi.Acls converts access lists, Pulumi.Resource is what the two
--   resources share, Pulumi.Configs and Pulumi.Directories are the resources, Requests what their
--   operations have done, and Pulumi.Safety these operations together.
-- Command: the flags that cmd/fs/main.go and cmd/server/main.go parse themselves.
-- Logging: internal/log/log.go, as the calls of zap that it makes.
-- Tests: runs of the operations on small tables.
--
-- The state. `World` holds the tables, the clock and a list that says which of the coming
-- statements fail; a theorem that names no list holds for every one. An error keeps its kind and what it
-- quotes; its text is left out. A transaction whose commit fails returns its result and has written
-- nothing, as `finish` has it. The pool has one connection, so transactions run one at a time, but
-- the reads of a handler's gates run outside the transaction that follows; the model runs a
-- handler without another request in between.
--
-- Numbers. Ids are integers, parsed as 64 bits and printed in decimal; sizes and times are natural
-- numbers that stay in range. Strings are lists of code points: every string of the program is
-- UTF-8.
--
-- A database file. Opening one works on `Disk`: tables that may be missing, or lack columns, and
-- the same list of failing statements. A failed COMMIT of a migration writes nothing. The file comes
-- from an earlier version or a failed attempt to open it, as `IsFile` has it.
--
-- Fuel. populateDirectory recurses on fuel for the depth of the tree, one more than the lengths of
-- all full paths together, which is enough where every directory has a name, as those that
-- CreateDirectory makes do.
--
-- The clients. A mount is a record with its snapshot, the times of reads, the clock and the state of
-- the other side, which is any type; a load runs to its end before another operation starts, as the
-- mutex of the snapshot has it. The nodes of the FUSE library, findmnt, fusermount and the system's
-- calls are parameters. A resource of the provider is a function of its arguments on the other
-- side's state; the engine that calls it is not part of the program.
--
-- Not modelled: joining tailnets, listeners, signals and the
-- other flags of the two commands, the schema and annotations of the provider, which its library
-- reads, serving and closing a mount, which the FUSE library does, and generated code. WhoIs
-- of the tailnet is a parameter of the interceptor.
pub mod Prelude
pub mod Strings
pub mod Proto
pub mod Exec
pub mod Store
pub mod Api
pub mod Client
pub mod Fs
pub mod Pulumi
pub mod Command
pub mod Logging
pub mod Tests
