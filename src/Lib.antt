-- ===== src/Lib.antt =====
-- The prelay server: a proxy between the protocols of model providers.
--
-- A client's request for a model is tried at the providers of that model, one after the other. A
-- provider that fails rests for a while and is tried last. The answer's stream of events is turned
-- into the client's protocol while it comes in, statistics are kept of it, and what came is recorded.
--
-- - Base: the names that are shared, lists, tests on numbers, association lists and ordered maps.
-- - Errors (src/error.rs): the errors, their responses, and the two classes that decide on retrying
--   and on moving on to the next provider.
-- - Failover (src/service/failover.rs): `rest`, `clear` and `resting` of `FailoverRegistry`, a map
--   from providers to the end of their rest and the length of their run of failures.
-- - Result: the results of fallible code and the `?` operator.
-- - Catalog (src/domain/catalog): the entries of the provider catalog (mod.rs), the checks of its
--   models and providers (Models and Entries for validation.rs), Loading for loading.rs and `load`,
--   and Queries for what the rest of the server asks. The file system, the TOML reader and the
--   parsers of headers and addresses are the interfaces `Files` and `Parsers`.
-- - Providers (src/domain/registry.rs, src/codec/providers/spec/capabilities.rs): which protocols a
--   provider speaks, from its type, the catalog and its own overrides.
-- - Upstream (src/outbound/client.rs): `retry_with_policy`. Its loop runs on the fuel
--   `max_retries + 1`, the number of rounds that the source's `for` has; Upstream.Retries shows that
--   the fuel never runs out without an outcome.
-- - Candidates (src/inbound/v1/candidates.rs): `order_candidates` and the loop
--   `run_endpoint_model_candidates`, which uses Failover and Upstream. The state is the cooldown
--   table with a world that attempts, pauses and the clock may change.
-- - Text and Json: UTF-8 and the string functions in use, and the JSON reader as an interface.
-- - Stream (src/codec/bridge/stream): Lines is `drain_lines` of sse.rs, on the buffer's length as
--   fuel; Events is events.rs; ChatEvent is decode/chat_event.rs; Frames is the values that
--   encode/responses.rs prints; ChatStats is decode/chat_stats.rs; ChatToResponses is the decoder
--   decode/chat_to_responses.rs, whose handling of chunks is in Decoder; Pipeline is the polled
--   stream of pipeline.rs; Head is the check of a stream's head, verify.rs.
-- - Recording (src/service/recording): the state of one recorded stream and its operations (State
--   for state.rs, Session for state/session.rs, Forwarding for state/forwarding.rs). The calls of
--   the activity store are kept in the state in their order; what the store answers, the rollout's
--   writer and the capture of content are the interface `Connections`. The course of a stream is a
--   list of arrivals, each with what the clock and the shared statistics then show.
-- - Storage (src/store/storage): the errors of mod.rs, and Visibility for provider_visibility.rs. The
--   queries are the interface `Database`; Storage.Lawful states what it relies on (`IsLawful`), and
--   a transaction that fails gives the database back as it was.
-- - Rollout (src/store/rollout): the writer (writer.rs, support.rs) of a conversation's events.
--   Writer has its operations, each from the writer to a result and the writer as it then is, also
--   when a step in the middle fails; serialization, hashing, the clock and the file are the interface
--   `Encoding`. Requests puts the calls that the server makes after one another, and Beginning has
--   `begin`, from the state of the thread that it finds. Reading (read.rs) reads a file's lines, over
--   the JSON library as the interface `Decoding`; Threads (cache.rs) has the state of a thread from
--   its events; Search (read.rs, mod.rs) finds a thread's file on the disk, the interface `Disk`, and
--   repairs it.
-- - Capture (src/domain/activity/stream.rs): the capture of a raw stream's content. Its loop over a
--   chunk runs on the chunk's length as fuel, and takes a byte or more at each turn; Capture.Chunks
--   shows that it ends with the whole chunk taken.
-- - Values: JSON values as trees, with their accessors. ImageBudget
--   (src/inbound/v1/responses/image_budget.rs) has the images of a request and `apply`, which leaves
--   the oldest out.
-- - ResponseIds (src/inbound/v1/responses/stream_rewrite.rs): the rewriter of response ids in a
--   stream of events, polled as the stream of Pipeline is. Its loop runs on the buffer's length as
--   fuel, and takes a byte or more at each turn.
-- - ThreadCache (src/store/rollout/cache.rs): `insert`, `get` and `remove_paths` of
--   `ThreadIndex`, the bounded index of threads in memory.
-- - Examples: each of the results at concrete input.
--
-- Numbers are natural numbers without a bound; where the source's type has one that a value can
-- reach, it is written out (`u32` and `Duration` in Failover, `i64` in Stream.Events). Instants and
-- durations are nanoseconds. Asynchronous code is sequential: a step of one task is one step, and
-- what other tasks do between is in the arguments.
--
-- Not modelled: HTTP, what the database does itself and most of the queries, the conversion of
-- whole requests and responses, the cache and the index files of the rollout store, extension
-- packages, and the start of the server.
pub mod Base
pub mod Errors
pub mod Failover
pub mod Providers
pub mod Upstream
pub mod Candidates
pub mod Text
pub mod Json
pub mod Stream
pub mod Recording
pub mod ThreadCache
pub mod Examples
pub mod Result
pub mod Catalog
pub mod Capture
pub mod Storage
pub mod Rollout
pub mod Values
pub mod ImageBudget
pub mod ResponseIds
