-- ===== src/Lib.antt =====
-- ttrpc, an RPC protocol over one connection: the Go package at the root of the repository.
--
-- The program's parts and the files that model them:
-- - channel.go, the frames on the wire. Frame: the ten-byte header (`messageHeader`). Channel: `recv`,
--   `send` and `getmbuf`, over a reader (the bytes that the peer sends, and the error behind them) and a
--   buffered writer with its sticky error and a connection that may stop taking bytes.
-- - errors.go. Errors: the error values as a data type, `OversizedMessageError`, and Go's (value, error).
-- - services.go. Services: `register`, `handle`, and the state of a `streamHandler` with its channel of
--   five payloads, as functions that are done, wait or panic. Services.Results: what `unaryCall` and
--   `streamCall` make of a handler's result, and `convertCode`.
-- - server.go, `serverConn.run`. Conn: the variables of `run`. Conn.Sender: the main loop's branches.
--   Conn.Receiver: one turn of the receiving goroutine, up to the next point where it can wait or others
--   can come between. Conn.Calls: what a connection promises of its calls, as an abstract machine.
--   Conn.System: both, and the goroutines of the calls, as a step function on a list of
--   events in any order (a handler may send after its call, and its context may end at any time);
--   Conn.System.Wire reads off a run the replies that its main loop takes, and the
--   messages that they become. `none` is an event that is not enabled, `panicked` the end of the process by a Go
--   panic. A `sync.Map`, an atomic counter and an unbuffered channel are each one action.
-- - server.go, `Server`. Server: listeners, connections, `Shutdown`, `Close`, the head of `Serve` and its
--   backoff. Each function runs under the server's mutex and is one step. Server.Serve: the accept loop,
--   with a handshaker (handshake.go), interleaved with a shutdown and with the ends of connections.
-- - stream.go. Stream: the client's side of a stream, with its channel of one message.
-- - client.go. Client: the streams, by pointer in a store and by identifier in the client's map;
--   `createStream`, `deleteStream`, `receiveLoop`, `run`. Client.Calls: `dispatch` and `Call`, split where
--   they wait. Client.Call: `Call` around the dispatch with its interceptor, the options of a client, and
--   codec.go. Client.Streaming: `NewStream` and the methods of `clientStream`. Client.System: the
--   receive loop, the calls and the users of streams, as a step function on a list of events in any order.
-- - metadata.go and `getRequestContext` of server.go. Metadata.
-- - unixcreds_linux.go. Credentials.
-- - interceptor.go, config.go and the chains of client.go. Interceptor and Config.
-- - Exchange: a client and a server at the two ends of one connection, composed of the definitions above:
--   one call or stream step by step, and, in Exchange.Concurrent, a run of Client.System that reads what a
--   run of Conn.System has written.
-- - cmd/protoc-gen-go-ttrpc/generator.go. Generator, Generator.Server and Generator.Client: the lines that
--   `generate` prints, as pieces of text and names. Generator.Brackets and Generator.Streams read them.
-- - Plugin (plugin/generator.go): the generator for gogo, as the calls that it makes of its printer, which
--   Plugin.Registered reads.
-- - Request: the request and response of request.proto, and the record Libraries of what protobuf and
--   gRPC's status package do (encoding and decoding, `status.FromError`), which every definition that
--   calls them takes as an argument. Tests and the modules below it: examples.
--
-- How they interact: a client's calls go through Client.create_stream to Channel.send; Channel.recv on
-- the server gives Conn.Receiver its messages, which asks Services for the handler; replies go through
-- Conn.Sender to Channel.send, and through the client's receive round to the stream that a call waits on.
--
-- Numbers: identifiers, lengths and the count of calls are natural numbers with the wrap-around of their
-- Go type written out. No definition runs on fuel: loops follow a list, and where a theorem counts calls
-- (of `recv`, of `RecvMsg`) the count is that of the messages and one more for the end. Where a `select`
-- has several cases ready, a Boolean argument says which one Go takes.
--
-- Not modelled: generated code, the commands that start the generators, protobuf (its results are
-- parameters), logging, `sync.Pool` beyond what `getmbuf` does with its result, times and the length of a
-- pause, `strings.ToLower` and `QualifiedGoIdent` in generated text (they stay symbolic), and the handlers
-- and interceptors of users (type parameters).
pub mod Prelude
pub mod Errors
pub mod Frame
pub mod Channel
pub mod Request
pub mod Services
pub mod Conn
pub mod Stream
pub mod Client
pub mod Metadata
pub mod Credentials
pub mod Interceptor
pub mod Config
pub mod Server
pub mod Exchange
pub mod Generator
pub mod Plugin
mod Tests
