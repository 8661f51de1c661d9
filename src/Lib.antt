-- ===== src/Lib.antt =====
-- mojo-jojo, an IRC client and bot in TypeScript: the message format, the handshake, the name tables
-- and the guards against abuse.
--
-- The program. packages/irc-message turns a line of bytes into a message and back. A tokenizer splits
-- the bytes into spans and a parser builds the message of them; there are a reference pair and a fast
-- pair, and `parseMessage` chooses one. packages/irc-client registers a connection: `register` drives
-- capability negotiation and SASL over the messages of the server, and a dispatcher then translates each
-- message into changes of the state (users, channels and their members, in maps whose keys are folded by
-- the server's casemapping) and into events. packages/bot answers commands, and bounds
-- what one user may ask for.
--
-- The files, with the paths of the source under packages/.
--   Base: the shared names. A string is the list of its UTF-16 code units, a byte array the list of
--     its bytes. Base.Dict is a JavaScript `Map` with string keys in insertion order, and
--     Base.JsObject an object with the key order of `Object.keys`.
--   Message: irc-message/src/types.ts.
--   Lexer: irc-message/src/tokenizer/{chars,Token,errors}.ts, and the control flow of a scan: a block
--     goes on at a position before the end, or returns, or throws.
--   Tokenizer: tokenizer/Tokenizer.ts, `tokenize` block by block under the names of its comments.
--   FastTokenizer: tokenizer/{JsFastTokenizer,flat}.ts, the same blocks on the array of triples that
--     one call leaves to the next; a write out of the array's bounds is lost, as in JavaScript.
--   Parser: parser/Parser.ts (Objects) and parser/FlatParser.ts (Flat). `source!.name` on no source
--     throws; `none` stands for that.
--   Parse: irc-message/src/parse.ts. Escape: escape.ts. Build: build.ts, the line from right to left.
--   Parity: the two tokenizers and parsers compared. Tiling: the spans of the reference tokenizer.
--   CaseMapping: irc-client/src/casemapping/{CaseMapper,IrcMap}.ts.
--   Commands, Capabilities, Sasl, Registration: irc-client/src/protocol/{commands,capabilities,sasl,
--     registration}.ts. `register` is a machine: `State` holds its variables, what was sent and the
--     outcome of its promise, and `step` takes a message, the end or error of the stream, or the timer.
--   Modes: irc-client/src/protocol/modeParser.ts; a mode letter is one step of `for (const char of s)`,
--     a code unit or a surrogate pair.
--   Lines: irc-client/src/pipeline/lineDecoder.ts, a step for each chunk, with the streaming decoder of
--     the platform as a parameter.
--   Isupport: irc-client/src/isupport/parseIsupport.ts. Whox: irc-client/src/protocol/whox.ts.
--   Events: irc-client/src/events/{types,factory}.ts. An event names a channel by its name and a user
--     by its place among the users made.
--   Entities: irc-client/src/entities/{User,Member,MemberList,Channel,Server}.ts. Users are shared by
--     reference, so they stand in a heap, and the maps hold places in it; a channel is held by value.
--   State: irc-client/src/state. Store is StateStore.ts, an operation for each method, with a log of
--     what the event streams are sent and of their ends. Dispatch holds the handlers of dispatch.ts,
--     and Dispatcher the batches, the table of the handlers, and `run` over a sequence of messages.
--   Abuse: bot/src/abuse/{cooldown,rateLimiter}.ts, with the clock's time as an argument.
--   Bot: bot/src/identity/match.ts (Glob, Identity), abuse/ignore.ts, command/permissions.ts
--     (Permissions), command/parse.ts (CommandLine), module/storage.ts (Storage), and the admission of
--     a message by command/CommandRouter.ts (Router), with the time as an argument.
--   Tests: the theorems at concrete inputs.
--
-- Loops and fuel. The scans recurse on the bytes that are left. The loops over tags and parameters,
-- which jump ahead, run on one unit of fuel more than the range has bytes; each round consumes a byte,
-- and a theorem rules out the end of fuel. `globMatch` runs on a fuel of the square of the length of
-- the text, as a star is tried once for each place. `chunkSaslResponse` runs on the length
-- of its text, and the loop of `decodeLines` on the length of its buffer.
-- Limits are natural numbers below 2 ^ 32 by the source's `>>> 0`, which `limit_or` writes out.
--
-- Not modelled. The text coders of the platform, `btoa`, `atob` and the digits of a number are
-- parameters. Error texts are constructors with what the texts name. Sockets, observables, the WASM
-- backends, the outbound queue, the reconnects, the run of a command's handler, and the
-- bot's configuration and modules are left out. Dates, upper and lower case and the reading of a number
-- are parameters of the state and of the bot. In `register` a send that throws is left out.
pub mod Base
pub mod Message
pub mod Lexer
pub mod Tokenizer
pub mod FastTokenizer
pub mod Escape
pub mod Parser
pub mod Build
pub mod Parse
pub mod Parity
pub mod Tiling
pub mod CaseMapping
pub mod Commands
pub mod Capabilities
pub mod Sasl
pub mod Registration
pub mod Isupport
pub mod Modes
pub mod Lines
pub mod Events
pub mod Entities
pub mod Whox
pub mod State
pub mod Abuse
pub mod Bot
pub mod Tests
