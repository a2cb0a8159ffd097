-- ===== src/Lib.antt =====
-- Verification of wsgraphql, a GraphQL server over HTTP and websockets (the package in v1/).
--
-- A websocket request is served by goroutines that share a `websocketRequest`: the reader of
-- messages (`readWebsocket`), one goroutine for each operation that it starts, the connect timeout
-- (`backgroundTimeout`), and the loop that writes to the connection (`serveWebsocketRequest`). They
-- meet in the channel `req.outgoing`, the map `req.operations`, the wait group `req.wg`, and in
-- contexts on which values are set after they are made.
--
-- Files, and the code that they model:
--   Prelude          the shared names: Boolean tests, lists, association lists, integers
--   Mutable          v1/mutable/api.go: `NewMutableContext`, `Set`, `Value`, `Cancel`
--   Context          v1/context.go: the keys, and the readers of what is stored under them
--   Apollows         v1/apollows/proto.go: protocols, operations, close codes, errors, messages and
--                    payloads, with their JSON
--   Formatting       v1/error.go `FormatError`, v1/server_websocket.go `combineErrors`
--   Results          v1/server.go `processResult`, `processResults`
--   Interceptors     v1/interceptors.go: the five chains, `initInterceptors`
--   Options          v1/api_server.go: `NewServer` and its options; `serverConfig` of v1/server.go
--   Response         v1/api_server.go `WriteError`
--   Callbacks        v1/callbacks.go: the deprecated callbacks, as interceptors
--   Otel             v1/compat/otelwsgraphql/api.go: the interceptor that reports spans
--   Gorilla          v1/compat/gorillaws/api.go: the adapter of gorilla/websocket
--   Ast              v1/ast.go: `parseAST`, and the hooks of the schema's extensions
--   Serving          v1/server.go: `ServeHTTP`, `handleHTTPRequest`
--   Plain            v1/server_plain.go: `servePlainRequest` and what it calls
--   Websocket        v1/server_websocket.go:
--     State          `websocketRequest`, and where each goroutine stands
--     Outgoing       `writeWebsocketMessage`, `writeWebsocketData`, `handleError`
--     Channel        `req.outgoing`, and what is written to the connection
--     Reader         the handlers of `readWebsocket`, one for each kind of message
--     Operations     the goroutine that `readWebsocketStart` starts, `serveWebsocketOperation`, and
--                    the `select` of `processResults` (v1/server.go)
--     System         all goroutines of a request: `step` on an event, and `Reach`
--     Upgrade        `serveWebsocketRequest` before its loop: the upgrade and the protocol
--     Run, Samples, Tests   schedules of events, and what they lead to
--     Keeps, Handling, Invariant, Acks, Accepting, Safety, Progress, Stopped, Stuck, Replies
--                    the proofs
--   Tests            concrete inputs for the other components
--
-- A request's state is a record `System`. An event names a goroutine and what happened to it: a
-- message was read, a `select` chose a case, an interceptor returned. A goroutine runs from one
-- send, read or event to the next in one step, and any order of events that `step` admits is a
-- schedule. Nothing of it is bounded and no fuel is used: the handlers are structural, and the
-- loops are the sequences of steps. The one recursion on fuel is that of the interceptors'
-- chains, whose fuel is one more than the length of the list that its index goes through. The
-- channel has room for one message, as in the source. The numbers of the wait group and the
-- addresses of contexts are unbounded.
--
-- Assumed: the mutexes of the map and of a context make each operation on them one step; the three
-- calls that end an operation's goroutine (`Cancel`, `delete`, `wg.Done`) are one step; the user's
-- interceptors, parser and executor set none of the server's own keys, and an `Init` interceptor
-- hands over the context that it was given or one derived from it. What belongs to graphql-go, the
-- JSON library and the user is a parameter or a part of an event.
--
-- In plain requests, `processResults` runs over the choices of its `select`, a `Channel`; a channel
-- that never closes and whose context is never done is no such value. What others do between two
-- choices is a part of the choice. Go goes through the maps of finish functions in an order that is
-- a parameter. A hook of an extension may panic, and the model follows the recovery. For a nil
-- response writer and a nil request, on which Go panics, it returns an error. A nil resolver of
-- spans and a nil result are not modelled.
--
-- Not modelled: the examples; the client's decoding of a result into Go maps, which is a parameter;
-- time, except that a timer may fire.
pub mod Prelude
pub mod Mutable
pub mod Context
pub mod Apollows
pub mod Formatting
pub mod Results
pub mod Interceptors
pub mod Response
pub mod Options
pub mod Callbacks
pub mod Otel
pub mod Gorilla
pub mod Ast
pub mod Serving
pub mod Plain
pub mod Websocket
pub mod Tests
