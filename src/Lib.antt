-- ===== src/Lib.antt =====
-- RealmMesh is a cluster of game services in C++. A player logs in, draws a queue number, is released
-- in batches as the servers have room, exchanges the number for an admission grant, and shows the
-- grant with the identity token at a gateway. Behind the gateway
-- the realm places the character in a shard of a scene.
--
-- Prelude.antt and the files under Prelude/: Boolean tests on the native numbers, lists, machine
-- words (`add64` and `sub64` wrap around at 2 ^ 64), texts as lists of character codes, ordered maps as
-- lists of entries, integers.
--
-- Queue/Core.antt is game/queue/src/queue_core.cpp with its header: the state of `QueueCore` is the
-- record `QueueCore`, with one function per member function. `Result` holds what the code throws. A time
-- point is a count of nanoseconds from the epoch. The atomics are read and written by one thread. The
-- lemmas stand in Queue/Core/: Ledger (what is consistent), Release, Eligibility, Windows, Recovery,
-- Evolution (releases, issues and restarts in a row), Budgets.
--
-- Queue/Ticketing.antt is game/queue/src/queue_ticketing.cpp over the modelled queue core. The store of
-- the issued numbers, the codecs of the two signed tokens and the hash are the operations of the record
-- `TicketOps`. Grants holds the lemmas. What a call that throws leaves behind is not modelled.
--
-- Gateway/Consumption.antt is the store in memory of game/gateway/src/admission_consumption_store.cpp.
-- The map of records is a function from digests. The keyed hash is a parameter that may fail. Each
-- operation holds the lock of the store, so a history is a list of operations (`run`). Rules, SingleUse
-- and Fencing hold the lemmas.
--
-- Gateway/Admission.antt is game/gateway/src/gateway_admission.cpp over any store, which is the record
-- `ConsumptionStore` of its operations, and any verifiers of the two tokens. Handle is about what the
-- pipeline does with one reservation, Login about the whole login over the store in memory.
--
-- Gateway/Pipeline.antt is game/gateway/src/gateway_login_pipeline.cpp. What the pipeline calls, the
-- transport, the admission, the account fetches, the ingress and the codecs, are the operations of the
-- record `Ports` on a state of the world. `GatewayLoginPipeline` has the sessions and what they share;
-- Settings has the checks of game/gateway/src/gateway_login_config.cpp; Sessions, Attach, Fetching,
-- Flushing and Frame hold the operations, by the phases of `advance`.
-- Accounts says what a session owns and what the lemmas rely on of the ports (`Laws`: only `reserve` hands
-- out an open handle, only `abandon` and `on_accept_result` settle one). Rules, AttachRules and FetchRules
-- are about one session, Invariant, Phases, FetchPhases and Commands about the pipeline, Budget about its
-- life from `create` to the destructor. Leaks puts the modelled admission, over any store, behind the ports,
-- with a count of the handles that are open, and shows `Laws` of it. The ports do not throw: a throwing call of
-- the store is answered as one of an unavailable store, where in the program the exception leaves the frame.
-- Where the program walks an unordered map, the order is an operation of the ports, or, in `mark_unhealthy` and
-- the destructor, that of the connections.
--
-- Base64Url.antt is game/common/src/base64url.cpp. Encoder and decoder recur on their input.
--
-- Scene/Shard.antt is game/scene/src/scene_shard.cpp: the state `SceneShard` with its three maps, one
-- function per operation of the switch in `handle`. Keys, Cases, Steps and
-- Closing hold the lemmas; Replay has a client that applies the events of a shard to a snapshot.
--
-- Network/Framing.antt is framework/network/src/core/byte_buffer.cpp and
-- framework/network/src/codec/length_field_codec.cpp. Buffer and Frames hold the lemmas.
--
-- Network/Http.antt is framework/network/src/http/http1_parser.cpp, with http1_lexing.hpp in Lexing and the head in Head, over the
-- buffer of Framing. Search, Chunks (the parser on a list of bytes), Pieces, Feeding, Headers, Lines, Requests and
-- Loops hold the lemmas.
--
-- Edge/Connections.antt is framework/edge/src/edge_connection_table.cpp. A transport is the record
-- `MessageTransport` of the operations that the table calls. Lookup, Invariant and Notices hold the lemmas,
-- over any sequence of calls.
--
-- Concurrency/BoundedQueue.antt is framework/concurrency/include/realmmesh/concurrency/bounded_queue.hpp.
--
-- Realm/CharacterName.antt is game/realm/src/character_name.cpp: names in UTF-8. Utf8 and Names hold the
-- lemmas.
--
-- Service/Lifecycle.antt is framework/service/src/service_lifecycle.cpp: the states of a service, with the
-- turns of the threads in any order. Ranks holds the lemmas.
--
-- All recursion is structural, so no fuel is chosen but for the decimal digits of a number,
-- whose fuel is one more than the number, and for the loops of the HTTP parser over lines and tokens
-- and of the check of a name, whose fuel is the length of what is left: each turn takes at least one
-- character.
--
-- Not modelled: the adapters to etcd, SQL, Lua, TLS, QUIC and msquic, the HTTP handlers, the generated
-- protobuf code (a message is the record of its fields), JSON and signatures, which are parameters, the
-- realm, chat, the client, logging and metrics.
pub mod Prelude
pub mod Base64Url
pub mod Concurrency
pub mod Edge
pub mod Gateway
pub mod Network
pub mod Queue
pub mod Realm
pub mod Scene
pub mod Service
