-- ===== src/Lib.antt =====
-- The bundler of PayGasX, a Go service that takes user operations over HTTP, checks each of them by
-- a simulation against the EntryPoint contract (ERC-4337), and sends them to it as one transaction.
--
-- Parts and files (paths from the repository's root):
--   bundler/src/main.go, cmd/standalone/main.go: Server.antt. `handler` routes a request by its
--     path, `init` and `standalone_main` start a process; Server/Laws.antt has what a run keeps,
--     Server/Starts.antt and Server/Written.antt how a process starts, Server/Service.antt how
--     it serves.
--   bundler/src/controller/main.go: Controller/Types.antt (the structs),
--     Controller/Request.antt (`json.Unmarshal` of a request), Controller/ToAbi.antt
--     (`ToABIStruct`), Controller/Responses.antt (`errorResp`, `successResp`),
--     Controller/Handlers.antt (`Healthz`, `HandleOps`; its two loops are `parse_ops` and
--     `simulate_ops`, what follows them `submit` and `send`); Controller/Bodies.antt reads the bodies.
--   bundler/src/eth/main.go: Eth.antt (`Init`, `Simulate`, `HandleOps`).
--   bundler/src/config/main.go: Config/Types.antt, Config/Decode.antt (`json.Unmarshal` into
--     `C`), Config/Getters.antt, Config/Init.antt.
--   bundler/src/util/main.go: Util.antt.
--   bundler/src/abi/entrypoint.go, bundler/src/abi/erc20.go (generated): Abi/Types.antt,
--     Abi/EntryPoint.antt and Abi/Erc20.antt (the constructors), and below each Metadata.antt (the
--     ABI's text), Transactor.antt (the methods that send), Caller.antt (those that read),
--     Direct.antt (what names no method), the three sessions, and Events/ with a file for each
--     event. What the generator writes again and again is stated once, over the event or method:
--     Abi/Events.antt (iterator, filter, watcher, parser) and Abi/Calls.antt. Abi/Signatures.antt
--     reads the functions and events that the ABIs' texts declare.
--   What these use of the Go standard library: GoLib/Base64.antt, GoLib/BigInt.antt,
--     GoLib/Marshal.antt; GoLib/Scanner.antt and GoLib/Decode.antt are the two halves of
--     `json.Unmarshal`, GoLib/Print.antt is `json.Marshal` of any value. GoLib/Json.antt reads JSON
--     objects of strings, as a client does.
--   The files below a module prove what it does; Tests.antt and its children run the model on a
--     small chain and apply the theorems there.
--
-- How the code is modelled:
--   A Go string of valid UTF-8 is the list of its code points (`Text`), a `[]byte` the list of its
--   bytes, an `error` its text, a `*big.Int` an optional integer, any other pointer an `Option`.
--   A function that returns `(T, error)` returns a `Result T`, one that may panic or end the
--   process an `Outcome`. Functions that touch `config.C`, `eth.client`, the node or the log take
--   a `State` and return it beside their outcome, also where they panic.
--   go-ethereum is the record `Geth` of types and functions: what is assumed of it beyond their
--   types is named where it is assumed (`NoSend`, `HexRoundTrip`, `TransactReturns`,
--   `EstimatesGas`). Files, environment and the AWS SDK are the record `Host`. The print of a
--   request by `%v` is a parameter too (`Sprint`).
--   The scanner of JSON is a function of a state and a character, with the errors of Go. It builds
--   the value that the decoder then stores, member by member, in what the variable held: a later
--   member is stored over an earlier one, and an error of type leaves the rest to be stored.
--   Names are matched but for their case. That a body is no valid UTF-8 is not modelled.
--   A channel is the list of what waits in it, and a `select` is told which of its cases it takes:
--   whatever order deliveries, ends and calls come in is a path of `Step`s
--   (Abi/Events/Iteration.antt, Abi/Events/Watching.antt). The goroutine of a watched event is a
--   state machine, `watch`. The logs and calls of `BoundContract` are the records `Logs` and
--   `Calls`, `UnpackLog` at an event's struct is an argument.
--   All loops of the code run over lists, and the scanner over its text, so they need no fuel. Two
--   readers take some: `read_object` of GoLib/Json.antt the length of its text, which is more than
--   its members, and `collect` of Abi/Events/Drain.antt the number of calls that its theorem is
--   about. The only machine integer that is computed with is the gas limit, a uint64, whose doubling
--   wraps modulo 2 ^ 64. JSON nests at most 10000 deep, the limit of Go's scanner.
--
-- Not modelled: `SimulateResult` of bundler/src/eth/main.go, which nothing uses, the contracts and
-- their scripts (Solidity, TypeScript), and the goroutines of the Lambda runtime, which answers one
-- request at a time.
pub mod Base
pub mod GoLib
pub mod Geth
pub mod Abi
pub mod Util
pub mod Host
pub mod Config
pub mod Eth
pub mod Controller
pub mod Server
pub mod Tests
