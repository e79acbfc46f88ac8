-- ===== src/Lib.antt =====
-- HelM (Hlem_SSH) is a desktop SSH client: a Rust process that keeps SSH connections, terminals, file
-- transfers and tunnels, a stored configuration, and a local HTTP gateway through which other programs
-- run commands on the authorised sessions. Parts of the Rust code are modelled here.
--
-- Jobs (src-tauri/src/api_server/jobs.rs): the background commands of the gateway.
-- - Jobs/Data: JobStatus, JobSummary, JobSnapshot, JobEvent, and ExecResult of remote.rs.
-- - Jobs/Tail: BoundedTextTail, the bounded end of an output, on UTF-8 bytes.
-- - Jobs/Events: push_event and estimate_event_bytes, the replay log of a job.
-- - Jobs/Record: the sections that the methods of JobRecord run under the lock of its state;
--   Jobs/Record/Methods: the methods, composed of a first look at the cancel flag, a section, and
--   finish_canceled where the section asks for it; Jobs/Record/Schedule: the sections of several tasks
--   in any order, with the event of a cancel request, which is sent after the lock was dropped,
--   waiting in between; Jobs/Record/Status: what each method
--   makes of the status; Jobs/Record/Replay: subscriptions.
-- - Jobs/Registry: JobRegistry. A call is one step on the table; the gateway's handlers call create and
--   then the methods of the record from a task, whose number stands for the attached handle.
-- - Jobs/Examples: runs of the above.
--
-- Terminal: the output of a terminal on its way to the window.
-- - Terminal/Bytes (src-tauri/src/remote/terminal_bytes.rs): frames and the search for bare carriage
--   returns, portable and by vectors of 16 or 32 lanes.
-- - Terminal/Batch (src-tauri/src/remote/runtime_terminal.rs): PendingTerminalOutput of remote.rs,
--   TerminalOutputBatch and the loop of the reader task, over the messages that it receives and what
--   the closed flag holds when each comes; Terminal/Batch/Run and Endings: whole runs. Which of the calls that hand a
--   frame on succeed is the argument `accepts`.
-- - Terminal/Gate (src-tauri/src/remote.rs): TerminalOutputGate, what waits before the window listens.
-- - Terminal/Flow (src-tauri/src/remote/terminal_stream.rs): TerminalFlowControl, which annotates each
--   frame by Terminal/Bytes and takes credit for it.
--
-- Transfer: the transfers of files (src-tauri/src/remote/runtime_transfer.rs unless said otherwise).
-- - Transfer/Data: the data types of transfers of remote.rs; AppResult is the answer of a command.
-- - Transfer/State: what pause, resume, cancel, progress and the end of a task do to a record under the
--   lock of the table; Transfer/Queue: admission by start_transfer, removal, pruning, and the deletion of
--   staging files, cleanup_transfer_staging of remote/transfer.rs among it.
-- - Transfer/Schedule: these sections in any order; Transfer/Commands: the commands and reports composed
--   of them, with the writes of the history in between.
-- - Transfer/Capacity: the wait for the slots of an SFTP session, over the rounds of its loop.
-- - Transfer/History (src-tauri/src/remote/transfer_history.rs): writing and loading the history.
-- - Transfer/Examples: runs of the above.
--
-- Guard (src-tauri/src/api_server/guard.rs): the command filter's test for recursive deletions, on the
-- words of a command. Its other rules are not modelled.
--
-- Proxy (src-tauri/src/remote/proxy.rs): handshakes on a byte stream, Proxy/Wire.
-- - Proxy/Socks5: the client of a SOCKS5 proxy and the server of a dynamic tunnel.
-- - Proxy/Http: the client of an HTTP proxy, and read_http_header.
--
-- Config: the stored configuration.
-- - Config/Data, Defaults, Path, Tags, Tunnel, Group, Session, Backup, Vault, Validate and Settings
--   (src-tauri/src/config.rs): its data, default values, normal forms, edits, migration and checks;
--   Config/Path also has normalize_delete_target of src-tauri/src/api_server/guard.rs, the same loop.
-- - Config/Store (src-tauri/src/vault.rs): the operations of VaultStore on groups, sessions and tunnels,
--   each the closure that the operation gives to mutate; Config/Store/Mutate: mutate itself.
-- - Config/Store/Preferences, Config/Store/Hosts and Config/Store/Records (src-tauri/src/vault.rs): the
--   operations on settings, quick commands, known hosts and backup records. Where an operation checks
--   its input before mutate, it is a function on the store, and the closure has a name of its own. The
--   comparison of a record's time with the cutoff is the parameter older_than; where a record's file is,
--   found by the system's paths and the url crate, is the parameter Locate. These operations give the
--   new data and the targets to clean up; mutate saves the data before the targets are used.
-- - Config/Mutation (src-tauri/src/config_mutation.rs): the tickets that keep commands from before a
--   replacement of the configuration away from what replaced it.
--
-- Prelude has the names that all share: tests on native numbers, lists, tables, UTF-8, code points.
--
-- Representation. usize is that of 64-bit builds; sums that saturate or wrap are written so. A HashMap is
-- a list of entries in the order in which it happens to iterate. Texts that the program only passes on or
-- compares are strings; outputs are lists of UTF-8 bytes; texts of the configuration are lists of code
-- points. Clocks, fresh UUIDs and the lengths of JSON prints are arguments. The crate memchr is the
-- parameter Memchr with its documented results; encryption and the write of the vault's file are a
-- parameter of mutate; the lossy reading of bytes that are not UTF-8 is an argument. tokio's locks make
-- each section atomic; its semaphore is a number of permits and whether it is closed; a call that would
-- block is the answer `waits`. The speed of a transfer is the bit pattern of its f64. serde_json is the
-- parameter Json of the history, whose documents are of a type of its own; a read of the clock in a loop
-- is one argument. The bytes of a transfer, its source's state and its staging path come from outside,
-- as the argument `prepare` or a field of Prepared.
--
-- A byte stream is what the other side sends until it closes; timeouts of handshakes are left out, and
-- String::from_utf8_lossy is the argument `lossy` there too.
--
-- Fuel. The division of data into chunks has its length as fuel, each chunk being a byte at least; the
-- digits of a port have five; the loop of read_http_header has as fuel the room that its buffer has, as
-- the code. The loop to a character boundary has the length of the text as fuel, and the vector loop one more
-- than that; each step of them goes forward, and the theorems on them are equations, not conditional on
-- an answer. All other loops are structural.
--
-- Not modelled: SSH and SFTP, the opening of TCP connections, the copying of the bytes of a transfer,
-- telemetry, the command filter's rules other than recursive deletion, cryptography, the making and
-- the upload of backups, the opening and the import of the vault's file, the Tauri commands and
-- start-up, the window's TypeScript, and the vendored russh-sftp. JOB_SHUTDOWN_TIMEOUT and the abort
-- after it are left out: the result of shutdown has the tasks that it awaits or aborts.
pub mod Prelude
pub mod Jobs
pub mod Terminal
pub mod Transfer
pub mod Proxy
pub mod Guard
pub mod Config
