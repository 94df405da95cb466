-- ===== src/Lib.antt =====
-- idrive-gateway serves an IDrive account over WebDAV. Its client of the EVS web service uploads
-- and moves files under recovery names, so that a failure or a crash loses neither the new nor the
-- old bytes of a file, and keeps a journal of the transactions that were not finished.
--
-- The parts and their files, with paths from the root of the repository:
--   Base         lists, texts as lists of bytes, int64 values and hexadecimal digits, with what the
--                code uses of Go's packages strings, strconv and encoding/hex.
--   Path         CleanPath, ParentDir, joinClean, IsReadOnlyPath of internal/evs/client.go and
--                stringsWithin of internal/evs/move.go, on paths as lists of bytes; path.Clean,
--                path.Base, path.Ext and path.Join of the standard library are written out.
--                Path/Clean, Path/Parent and Path/Rejoin hold the lemmas and theorems on them.
--   Evs/Errors   the sentinel errors and how errors wrap and join; errors.Is.
--   Evs/Types    the structs of internal/evs, the questions that the code asks of its surroundings
--                (`Query`) and the type of each answer.
--   Evs/Files    the calls on local files that internal/webdav and internal/session make, as
--                questions.
--   Evs/Monad    the state of a run (`World`): the surroundings, the client, the record of the
--                transaction in progress and the questions asked so far with their answers. A Go function that may
--                fail is an action on it that gives a `Result`.
--   Evs/Api      how replies are read: readAPIResponse, postForm, postFormRaw, checkHTTPStatus.
--   Evs/Cache    cachedBrowse, storeBrowse, invalidatePaths. Room, Store and Invalidate below it
--                hold the proofs.
--   Evs/Listing  BrowseFresh, Browse, requireWritable, Stat, StatFresh, protectDeviceRoot; the
--                depth of their recursion is treated in Evs/Listing/Depth.
--   Evs/Mutations  Mkdir, Rename, Delete, Copy, Move and the loops that wait for a path.
--   Evs/Transfer the reading side of downloads, verifyUpload, uploadSmall, uploadChunked
--                and randomUploadID.
--   Evs/Journal  the journal record, its validation, removeKnown, recoverUpload, RecoverPending.
--   Evs/Upload   UploadFile (internal/evs/upload.go), with its deferred recovery.
--   Evs/Move     MoveReplace (internal/evs/move.go), with its deferred recovery.
--   Evs/Keeps    the rules by which an action keeps a predicate of every question that it asks,
--                one lemma for each action; Evs/Footprint says with them which mutations an upload,
--                a move and a recovery may ask for, and Evs/Footprint/Names what their names
--                look like. Evs/Runs: what success of an action tells;
--                Evs/Gives: properties of every value that an action gives; Evs/Leads: what a
--                question has to wait for, over the questions and answers before it; Evs/Ahead:
--                the renames that have to wait for a record of the journal.
--   Webdav       WriteState: writeState and requestBody of internal/webdav/handler.go; Handler: the
--                count of its requests in progress and Drain, as steps of its goroutines;
--                Aliases: buildRootAliases of internal/webdav/fs.go; Paths: its translation of paths
--                between the drive and what the gateway shows, and isProtectedRootRenamePath.
--                WriteFile: newWriteFile, Write and Close of fs.go; Discard: the steps whose
--                failure removes a temporary file; ReadCache: internal/webdav/cache.go;
--                Maintenance and Retention: internal/webdav/maintenance.go, with its proofs in
--                Maintenance/Asks (what pruning asks for), Listed, Safe, Totals and Budget; Directory:
--                Readdir of fs.go; FileSystem: Mkdir, RemoveAll, Rename and Stat of fs.go;
--                ReadFile: Seek of fs.go before the local copy is opened;
--                Preconditions: internal/webdav/preconditions.go; Admission: the semaphore of
--                NewHandler, as steps of requests; Serve: the checks of NewHandler in their order,
--                and the request as it is passed on.
--   Auth         validateTokenURL, tokenEndpoint and tokenCallback of internal/auth.
--   Session      Load and save of internal/session/store.go.
--   Gateway      localPassword of cmd/idrive-gateway/password.go.
--   Tests        a service in memory, and the theorems applied to it.
--
-- The surroundings are a parameter, the record `Env`: a function that answers every question from
-- a state of its own, SHA-256, MD5 and the reading of times. The HTTP service, the local disk, the
-- clock, random bytes, the order of a map's elements and the journal's directory are all
-- behind it, with no assumption on its answers but those that a theorem names. One question is one
-- request or one call: retries inside net/http and partial reads are not told apart, and a body is
-- read whole or up to an error. Mutexes are not modelled: uploadMu admits one transaction at a time,
-- and an action is what one goroutine does between other goroutines' steps on the cache. The lock
-- between processes is a question, and the semaphore of NewHandler a parameter with the behaviour
-- that its package documents. encoding/json and url.Parse are parameters without any assumption.
--
-- Bounds: int64 values are integers where the code only compares them; the generation of the cache
-- wraps at 2 ^ 64, and so does the count of received bytes. BrowseFresh and requireWritable call
-- each other; the model counts the levels and starts with two, which is shown to be enough. The
-- loops that wait for a path run the numbers of rounds that the code gives. Letters are folded as
-- those of ASCII text, where the code compares the words of a reply without their case.
--
-- A local file is known by its path, also while it is open. filepath.WalkDir is the list of the
-- entries that it visits; paths have slashes, as on Unix. sort.Slice is an insertion sort, as the
-- order of files with the same time is not said. Sums of file sizes are taken to stay below 2 ^ 63.
-- The downloads of the read cache that other requests have in progress are a parameter: the outcome
-- of such a download. Times of the local disk and of the clock are in nanoseconds, and those of a
-- node and of a header in seconds.
--
-- Not modelled: OpenFile and the local copy of a file that is read, in internal/webdav/fs.go; the
-- WebDAV handler of golang.org/x/net; the response headers and deadlines of NewHandler; the cookie
-- jar and what the session store does with it; the web view and the exchange of a token in
-- internal/auth; internal/processlock, internal/atomicfile, internal/probe and the commands other
-- than their password file.
pub mod Base
pub mod Path
pub mod Evs
pub mod Auth
pub mod Gateway
pub mod Session
pub mod Webdav
mod Tests
