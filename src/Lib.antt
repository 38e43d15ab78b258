-- ===== src/Lib.antt =====
-- A model of the core logic of oRPC, with its theorems. The program is a set of TypeScript packages:
-- a client serializes a call and sends it, a server matches and runs it, and helpers limit the rate
-- of calls and publish events. The model takes the parts that keep state or transform data.
--
-- Which file models which part:
--   Shared/Queue: `AsyncIdQueue` of packages/shared/src/queue.ts, the items and waiting pulls of each
--     id. `open`, `isOpen`, `push`, `pull` and `close` are `open_queue`, `is_open`, `push`, `pull` and
--     `close`; a promise is a number, and settling it is an output.
--   Client/RpcJson: `RPCJsonSerializer` of packages/client/src/rpc-json-serializer.ts. The
--     constructor is `construct`, `serializeValue` is `serialize_value`, and the two public methods
--     keep their names. Values are the data type `Value`.
--   Ratelimit/Memory: `MemoryRateLimiter` of packages/ratelimit/src/adapters/memory.ts, each private
--     method a function of the same name; a reading of the clock is an argument.
--   Publisher/Memory: `MemoryPublisher` of packages/publisher/src/adapters/memory.ts, with its two
--     binary searches in Publisher/Bisect and the ids of packages/shared/src/id.ts in
--     Publisher/SequentialId.
--   Publisher/Iterator: the iterator of `Publisher.subscribe` in packages/publisher/src/publisher.ts.
--     The adapter calls `receive`, the consumer `pull` and `terminate`, the signal `abort_signal`.
--   Server/Procedure: `executeProcedureInternal` of packages/server/src/procedure-client.ts, with
--     `next(midIndex, …)` as `next` on the middlewares that are left. A middleware is the program of
--     its calls of `next`, so that it may call it any number of times. `mergeTwoLevels` of
--     packages/shared/src/object.ts is in Shared/Object.
--   Openapi/BracketPath: `stringifyPath`, `parsePath` and, in BracketPath/Entries,
--     `serialize` and, in BracketPath/Tree, `deserialize` of packages/openapi/src/bracket-notation.ts.
--   Client/Retry: the interceptor of `RetryLinkPlugin` in packages/client/src/plugins/retry.ts; `callNext`
--     is `call_next`, a round of its loop a unit of fuel.
--   Server/Cors: the two interceptors of `CORSHandlerPlugin` in packages/server/src/plugins/cors.ts.
--   Shared/HttpPath: `mergeHttpPath`, `matchesHttpPathPrefix` and `matchesHttpPath` of
--     packages/shared/src/http.ts.
--   Server/Guards: the judgement of packages/server/src/plugins/get-method-csrf-protection.ts, and the
--     limits of packages/server/src/plugins/request-limit.ts on a body.
--   Client/Retry/Reconnecting: the iterator of the same plugin that connects again when it fails; an
--     item is `newest` with the metadata of its event.
--   Client/Dedupe: `DedupeLinkPlugin` of packages/client/src/plugins/dedupe.ts, each method a function of
--     the same name. A caller is named by its promise.
--   Batch: the batch plugins of packages/client/src/plugins/batch.ts and
--     packages/server/src/plugins/batch.ts. Frames has the bytes of a response, Headers the headers of
--     a batch and its requests, Groups `processPendingBatches` and `executeBatch`, Requests the
--     judgement of a batch by the server.
--   Shared/Replicate: `replicateAsyncIterator` of packages/shared/src/iterator.ts, over Shared/Queue's
--     queue. Shared/Iterators: `wrapAsyncIterator` and `consumeAsyncIterator` of the same file.
--   Shared/Interceptor: `intercept` and the interceptors that call back, of
--     packages/shared/src/interceptor.ts.
--   JsonSchema: `combineJsonSchemasWithComposition` of packages/json-schema/src/composition-utils.ts is
--     in Combining, `combineJsonObjectSchemaEntries` in Entries; their turns of the loop over `$defs` and
--     their mapping of a reference are in Merging, the search of a free name in Naming.
--     `mapJsonSchemaRefs` of packages/json-schema/src/ref-utils.ts is in Refs, on schemas that are trees;
--     `visitJsonSchemaRefs`, which goes by the identity of objects, is left out. The segments of JSON
--     pointers are in Pointer.
-- Prelude has the shared helpers, among them the language's `Map` with string keys as a list of its
-- entries (Prelude/JsMap).
--
-- Bounds and fuel: `serialize_value` takes fuel, since a custom handler may return any value, which is
-- walked again; with the built-in handlers the depth of the value is enough. `block_until_ready` takes
-- fuel, since it waits for a limit that other calls may use up; one round more than the timeout has
-- milliseconds is enough, since every round ends a window. `bisect` takes the length of its range,
-- which is enough since every round shortens it. `fresh_name` takes one unit more than there are
-- names to avoid, `drain` the length of its buffer, `execute_batch` more than the number of its
-- requests, since every half of two or more is smaller, and the rounds of a retry the attempts that
-- are left. Numbers are natural numbers
-- without a bound: the sources use them for counts, milliseconds and indices below the range of
-- exact doubles.
--
-- Parameters are the conversions of the language (`Natives`), the event library and the generator of
-- ids (`Events`), what other calls do during a sleep (`Rounds`), the codec of messages of the peer
-- library (`MessageCodec`), what a transport and a connection answer (`Transport`, `Connections`), the
-- options of a batch (`BatchOptions`) and the writing of JSON (`Stringify`). Not modelled are input and
-- output, the adapters to databases, the integrations with frameworks, logging, and the building of
-- OpenAPI documents, which is mostly the copying of fields.
pub mod Prelude
pub mod Shared
pub mod Client
pub mod Server
pub mod Batch
pub mod Openapi
pub mod JsonSchema
pub mod Ratelimit
pub mod Publisher
