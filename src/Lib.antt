-- ===== src/Lib.antt =====
-- karu reads byte ranges of local files and of objects behind HTTP, S3, GCS, Azure, Hugging Face and
-- Source in batches. A URI resolves to an object and a window of it (src/uri.cpp). A batch of requests
-- is planned into transfers, each of which serves the nearby requests of one object
-- (src/runtime/planner.cpp). The bytes of a transfer arrive in chunks and are laid out in the buffers
-- of the requests (src/runtime/transport.cpp). Each request then has a completion in the queue of its
-- batch (src/runtime/engine.cpp, src/runtime/batch.cpp).
--
-- Base has the shared names: tests, lists, 64-bit words, texts as lists of bytes, std::expected. Order
-- has strict weak orders and std::stable_sort. Decimal has std::to_string, std::from_chars and
-- `parse_u64` of src/uri.cpp; Text has `redact_url` of src/text.hpp.
-- Uri has the types of src/uri.hpp, and its modules the functions of src/uri.cpp: Window `apply_window`,
-- Encode `encode_path`, Object the schemes of `terminal`, Resolve `take_bytes_fragment`, `terminal` and
-- `resolve_impl`, whose `depth` is given as the levels that it leaves of MAX_SUBFILE_DEPTH.
-- Transfer has the records of src/runtime/transfer.hpp and src/runtime/batch.hpp, and the statuses of
-- include/karu/karu.h.
-- Planner has the functions of src/runtime/planner.cpp, in Checks, Merge and Transfers; a loop of
-- `plan_transfers` is a function of its variables (`screen`, `grow`, `plan_from`). Scatter has `store_payload` of
-- src/runtime/transport.cpp over a memory that is a function of addresses.
--
-- Batch has src/runtime/batch.cpp: `next` is given the batch as it is when the wait is over. Batch/Deliver
-- has `deliver` and `finish_transfer`, and Batch/World `submit`, of src/runtime/engine.cpp; the workers
-- and the consumer are the steps of Batch/World: the critical sections of `push`, `transfer_finished` and
-- `next`, where `transfer_finished` ends a finished transfer or one that `discard_transfer` drops, and
-- that a batch is cancelled. Engine/Budget has the attempts of a transfer, each with Http/Attempts.
-- Http has what a transfer knows of its response, Http/Range `parse_content_range`, and Http/Write
-- `write_callback` of src/runtime/transport.cpp; what libcurl says of the status and of the length of the body is given.
-- Http/Classify has the tests of src/runtime/http_response.cpp on a response that failed and the delay of
-- a retry, and Http/Failures `failure`; `curl_getdate`, the redacted URL, the text of libcurl for an error and the random numbers are parameters.
-- Http/Headers has `header_callback`, and Http/Resume `reset_response` and `plan_resume`, of
-- src/runtime/transport.cpp; libcurl's URL parser is a parameter. Http/Attempts puts them together: what
-- libcurl hands over in each attempt is given.
-- Engine has src/runtime/engine.cpp: Retry what `io_loop` does at the end of an attempt, and Files and
-- Local the local reads, from `File::read_at` of src/platform.cpp to `file_loop`. pread is a parameter,
-- which interrupts less than `patience` calls in a row; a loop of reads has a round for each byte at most
-- and one more.
-- Config has src/config.cpp and src/config_options.hpp: Names the tables and names of options, Builder
-- `ConfigBuilder`, Snapshot the lookups of `ConfigSnapshot`, Values `validate_values` and
-- `parse_integer`, Headers `parse_configured_headers`, and Freeze `freeze`. getenv and the test for a
-- file are parameters, and so is the version that the build sets; an unordered_map is an association
-- list. `parse_lines` is given more fuel than the text has characters, and each round takes one at least.
-- Resolver has src/runtime/resolver.cpp: Entries `entry`, with the clock and whether a thread can be
-- started given, and Steps the thread of `serve`, with one step for each time that the lock is held.
-- Credentials has src/credential_cache.cpp: Cache the parts of `native`, `custom` and `invalidate` that
-- hold the lock, and Steps their callers, where a flight that they share is a number. What a load ends
-- with and the clock are given.
-- Download has src/download.cpp: Run the loops, where each round of the loop over the slots is given
-- what the calls in it answer, so that it needs no fuel, and Cover the bytes of the object at each step,
-- which Filling and Rounds follow.
--
-- Words of 64 bits are numbers with their wrap-around written out; size_t has 64 bits. Planning takes
-- at least one request in each round, so `plan_from` is given as much fuel as there are requests, and
-- without fuel its status is one that planning does not have, so that it ends with `ok` or with the
-- status of a failed allocation shows that the fuel is enough. std::malloc is a parameter.
-- Request buffers are addresses; tags are numbers, since they are only passed on.
--
-- Not modelled: threads and their wake-ups, libcurl, OpenSSL, the file system and the metadata
-- services, which are input and output. Counts of objects in memory are taken not to wrap around.
-- Of src/runtime/engine.cpp the loops around the attempts and the reads of the ends of remote objects
-- are left out, and of src/runtime/transport.cpp the probes for the size of an object and the options
-- that a transfer sets on libcurl. The requests that src/backends signs, the providers of credentials,
-- the digests, the processes of src/process.cpp and the interfaces for C and C++ are left out too: they
-- mostly pass values on to services, or rest on digests.
pub mod Base
pub mod Order
pub mod Decimal
pub mod Text
pub mod Uri
pub mod Transfer
pub mod Planner
pub mod Scatter
pub mod Batch
pub mod Http
pub mod Engine
pub mod Config
pub mod Resolver
pub mod Credentials
pub mod Download
