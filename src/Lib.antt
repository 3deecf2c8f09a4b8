-- ===== src/Lib.antt =====
-- The voucher manager: it receives FDO ownership vouchers, keeps them in a SQLite database and on
-- disk, lets their holders assign them to new owners, and delivers them to the next owner's receiver.
--
-- A service or handler of the program is a module, and a method on a pointer is a function that
-- passes the state on (`Exec` of Backend.antt): it returns a result or an error and the state after
-- it, with what was written before an error kept. The database and the disk carry a list of outages,
-- which says what statements fail; a theorem that says "with no outage" or "tables that do not fail"
-- asks for an empty list, and the others hold for every list. The clock is an argument, in nanoseconds.
--
-- Files, by the part of the program:
--   Config            config.go (settings and defaults)
--   Transmission      voucher_transmission_store.go: rows (Transmission.antt), statements on
--                     transmissions (Store), on grants and joins (Grants); Store/Rows, Store/Identity,
--                     Store/Consistency, Store/Queries, Store/Batch, Access, Access/Join and Access/Latest hold the proofs
--   Partner           partner_store.go; Partner/Columns and Partner/Trust hold the proofs
--   Destination       voucher_destination.go (ResolveDestination and its helpers)
--   Push              voucher_push_service.go (AttemptRecord is `attempt_record`, ProcessVoucher
--                     `process_voucher`), Push/Client voucher_push_client.go, Push/Backoff
--                     backoffDuration; Push/Attempts, Push/Rows, Push/Races, Push/Liveness, Push/Queue,
--                     Push/Overdue, Push/Backoff/Bounds and Push/Backoff/Overflow hold the proofs
--   Retry             voucher_retry_worker.go (processBatch is `process_batch`)
--   FileStore         voucher_file_store.go, on the disk of Disk.antt
--   Identity, Tokens  token_identity.go, voucher_receiver_tokens.go
--   Assign            voucher_assign_handler.go (assignVoucher is `assign_voucher`, ServeHTTP is
--                     `serve_http` of Assign/Handler), Assign/Unassign and Assign/Command
--                     the unassign and assign commands of voucher_assign_cli.go; Assign/Answers,
--                     Assign/Laws, Assign/Handler/Guard, Assign/Unassign/Effect and
--                     Assign/Command/Alike hold the proofs
--   Pull              voucher_pull_store.go (GetVoucher is `get_voucher`, List is `list_vouchers`);
--                     Pull/Laws and Pull/Page hold the proofs
--   Status, Listing   voucher_status_handler.go and voucher_list_handler.go (both ServeHTTP are
--                     `serve_http`), Status/Paths the identifier in a path; Status/Laws,
--                     Status/Exact and Listing/Laws hold the proofs
--   Services          external_executor.go, did_resolver.go, owner_key_service.go and
--                     voucher_signing_service.go; Services/ExtraData and Services/Hash
--                     ove_extra_data_service.go, Wire the JSON that it and the owner key command give
--   Pipeline          voucher_pipeline.go (ProcessVoucher is `process_voucher`); Pipeline/Laws and
--                     Pipeline/Disk hold the proofs
--   Receiver          voucher_receiver_handler.go (ServeHTTP is `serve_http`), Receiver/Headers its
--                     source address; Receiver/Outcome, Receiver/Paths, Receiver/Laws, Receiver/Once,
--                     Receiver/EndToEnd (an upload and its goroutine) and Receiver/Interleaving
--                     hold the proofs
--   PullTokens        pull_service_setup.go (`issue` and `validate` of the session tokens, the push
--                     receiver's LookupKey and IssueToken); PullTokens/Sessions and PullTokens/Trust
--   Refresh           partner_refresh_worker.go (refreshAll is `refresh_all`); Refresh/Laws
--   Startup           main.go (the closure validateToken) and partner_command.go (bootstrapPartners);
--                     Startup/Tokens, Startup/Bootstrap and Startup/Bootstrap/Again hold the proofs
--   World             the state that the services share; World/Frames what leaves the tables alone
--   Environment       the go-fdo library, hashes, DIDs, HTTP and the operator's commands, as
--                     parameters, with no assumption on them
--   Prelude, Backend  shared notation, lists, sorting, results and statements
--   Examples          concrete inputs on which the theorems are applied
--
-- How the parts interact: `process_voucher` asks Destination where to deliver, queues a row in
-- Transmission, and attempts it by the client of Push, which reads the file from the disk; the retry
-- worker takes a batch of due rows and attempts each; the assign handler reads rows and grants,
-- writes the disk, and then marks the row and inserts grants.
--
-- The receiver saves an upload under its GUID and starts a job, the pipeline, which asks Services for
-- the next owner, files a row and makes a first attempt. The status and list handlers read the same
-- rows and grants.
--
-- Bounds: loops are structural recursion on rows, times and serials; the rounding alone has fuel. A batch of
-- the retry worker takes the list of the times at which its context is found live; it is cancelled
-- where the list ends. The backoff is computed in 64-bit two's complement, and its jitter
-- in float64 with rounding to 53 bits (Push/Backoff): the exponents stay below the 75 that are tried,
-- since the numbers do below 2 ^ 128.
--
-- Not modelled: the command line (main.go and the commands, but for the token check, the partners of
-- the configuration, assign and unassign), DID minting, logging, schema migration, ListCustodians, and
-- the concurrency of the handlers but for two uploads at once (Receiver/Interleaving): operations run
-- one after another, as SQLite serialises them, and the receiver's goroutine is a step of its own. A
-- map that is iterated is a list in the order of the iteration. Paths are joined as they are, for a
-- directory that path/filepath does not change. The error of a push that is given up is the
-- push's own, without the words that count the attempts in front of it, and the time of a grant is not
-- cut to microseconds.
pub mod Prelude
pub mod Backend
pub mod Transmission
pub mod Config
pub mod Disk
pub mod Environment
pub mod Partner
pub mod Destination
pub mod World
pub mod Push
pub mod Retry
pub mod FileStore
pub mod Identity
pub mod Tokens
pub mod Assign
pub mod Examples
pub mod Pull
pub mod Status
pub mod Listing
pub mod Wire
pub mod Services
pub mod Pipeline
pub mod Receiver
pub mod PullTokens
pub mod Refresh
pub mod Startup
