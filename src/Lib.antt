-- ===== src/Lib.antt =====
-- Formal model of wisp-esp32, a Nostr relay for the ESP32 (C, on ESP-IDF and libnostr-c).
--
-- The relay takes events and subscriptions from WebSocket clients. An event is checked against
-- the rate limit of its connection, stored in a file with an entry in an index, and sent to each
-- connection with a subscription that it matches. This library models the components of the
-- relay, from the frame that a client sends to the files and the replies, and their composition:
--
-- RateLimiter (main/rate_limiter.c, main/rate_limiter.h). The state is `RateLimiter`, sixteen
-- buckets and the limits; `init`, `check` and `reset` are rate_limiter_init, rate_limiter_check
-- and rate_limiter_reset. A check reads the timer once for a new bucket and once for the window, so
-- `check` takes both readings, in microseconds. Seconds are cut to 32 bits, as in the source.
-- RateLimiter/Invariant has the invariant of the table, RateLimiter/View each connection's bucket,
-- RateLimiter/Window sequences of calls.
--
-- SubManager (main/sub_manager.c, main/sub_manager.h). The state is `SubManager`, 64 slots and
-- their count; `init`, `add`, `remove`, `remove_all`, `matching`, `count` and `destroy` are
-- sub_manager_init and so on. An array of filters and its length are one list. The copies of
-- filters are in SubManager/Memory: the allocator is a parameter `grants`, which says for each call
-- whether it succeeds, and memory is the number of calls so far with the number of live blocks.
-- nostr_filter_free gives back the blocks that a filter owns; nostr_filters_match is a parameter.
-- SubManager/Invariant, Ownership, Paths, RemoveAll and Copy are about the table and the memory,
-- SubManager/View about the map from connection and identifier to filters, SubManager/Matching
-- about sub_manager_match.
--
-- Storage (main/storage_engine.c, main/storage_engine.h). The state is `Engine`, together with the
-- files and the NVS store, which are parameters (`FileSystem` with `FileLaws`, `Nvs`), as is what
-- the engine takes from libnostr-c (`Library`). Whether a file that was written reads back is told
-- by `fclose`, whose result the engine ignores. Storage/Persist is storage_init, storage_destroy
-- and the copy of the index in NVS, Storage/Ops finding, saving, reading and deleting,
-- Storage/Sweep purge, compaction, statistics and a round of the cleanup task, Storage/Query
-- storage_query_events. Storage/Invariant and Storage/Numbering have the invariant of the index,
-- Storage/Content the store as a dictionary from identifiers to bytes, Storage/Chunks and Recovery
-- what is read back of a saved index (with `NvsLaws`), Storage/Answers, Searching, Matches and
-- Keepsake what a query is asked for, where its results come from and what it leaves, and
-- Storage/Saving, Presence, Deleting, Purge, Compaction, Cleanup, Keeping and Expiry the other
-- operations. An operation past its test of `initialized` is a definition of its own, such as
-- `save_locked`.
--
-- Validator (main/validator.c, main/validator.h) has no state: `check_event` is
-- validator_check_event, and the checks of libnostr-c are the parameter `Checks`.
-- Validator/Acceptance is about the events that it accepts. The difference of a date and the clock
-- is taken to fit 64 bits.
--
-- WsServer (main/ws_server.c, main/ws_server.h). The state is `WsServer`, eight connections and their
-- count, with the global variables of the file; `on_open`, `on_close`, `init` and `stop` are named
-- after the functions. WsServer/Frames has ws_handler, whose `Request` is what ESP-IDF answers it, and
-- the ways out to a client over the parameter `Httpd`. WsServer/Invariant is about the table,
-- WsServer/Attending about what a request leaves alone, WsServer/Accepting about `on_open`.
--
-- Router (main/router.c, main/router.h): `parse` is router_parse, Router/Dispatch has router_dispatch.
-- The parser and the printer of libnostr-c are the parameter `Codec`. Router/Answers is about what is
-- sent.
--
-- Handlers (main/handlers_stub.c) and Broadcaster (main/broadcaster.c): `handle_event`, `handle_req`,
-- `handle_close` and `fanout`. Handlers/Answers, Results and Requests are about what they send,
-- Handlers/Stored about what they store.
--
-- Deletion (main/deletion.c, main/deletion.h): `process` is deletion_process; libnostr-c is the
-- parameter `DeletionLib`. Each call of the engine is a step on `Store`, the engine with its files
-- and its NVS. Deletion/Invariant is about the index, Deletion/Safety, Guarding and Authority about
-- what is not deleted.
--
-- Relay (main/relay_core.h) has the state of the whole relay: all the above with the list of the calls
-- of the router_send_ functions, whose results no caller uses. `Platform` has everything below the
-- relay, and `Moment` what the clocks and the allocator answer while one message is handled.
--
-- Application (main/main.c) has the callbacks of the server, the start and the clean-up after a start
-- that failed. Application/Working and Invariant have the invariant of the relay,
-- Application/Handling and Dispatching a message under it, Application/Runs requests and sequences of
-- what befalls the relay, Application/Starting and Failing the start, and Application/Room how the
-- sizes of the tables fit together. Messages, openings and closings run in the one task of the HTTP
-- server, so each of them is one step; the cleanup task has its rounds in between.
--
-- Protocol has the events, filters and error codes of libnostr-c. Base has Boolean tests and
-- words of 16 and 32 bits (Base/Tests), arrays (Base/Lists), searched arrays of slots
-- (Base/Slots), tables that share keys (Base/Capacity), signed integers (Base/Int) and texts
-- (Base/Text).
--
-- Every loop of the modelled code runs over an array or a counter, so the definitions recurse on
-- the list or on the number of rounds that are left, and no fuel is chosen. Every operation holds the
-- mutex of its component throughout, so it is one step of the model. File descriptors are natural
-- numbers. Words wrap around where the source has them, except that a count of at most 64 slots or
-- 100 chunks is a plain number.
--
-- Not modelled: the mutexes of the limiter and the server, logging, the directories of LittleFS and
-- the sizes of its partition, the start and the stop of the cleanup task, the texts of the
-- validator, the options of sockets, the information document, and WiFi, SNTP, the watchdog and the
-- monitors of memory and flash, which only call ESP-IDF.
pub mod Base
pub mod RateLimiter
pub mod Protocol
pub mod SubManager
pub mod Storage
pub mod Validator
pub mod WsServer
pub mod Router
pub mod Deletion
pub mod Relay
pub mod Broadcaster
pub mod Handlers
pub mod Application
