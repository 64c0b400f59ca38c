-- ===== src/Lib.antt =====
-- Verification of the Go SDK for Thalovant hubs.
--
-- A program that uses the SDK holds a `HubSession` (session.go), which keeps one client connected to
-- a hub: it dials through a factory, redials under a `HubSessionPolicy`, drops a client whose call
-- failed, and tells its watchers. The client talks to the hub over a transport that a
-- `noiseSession` (noise.go) encrypts, cuts into frames and puts together again. The handshake of
-- that transport compares the key that the hub shows with the one in the file of pinned keys
-- (noise_store.go, noise_store_file.go).
--
-- What models what:
--   Prelude      names and lemmas that the modules share: Boolean tests, lists, rulesets.
--   Errors       errors.go: the sentinels that decisions read with errors.Is.
--   Link         session.go: `HubSessionPolicy` and `LinkSupervisor`. Link.History is the rule book
--                as a function of the whole history of outcomes, without a state.
--   Session      session.go: `HubSession`, its state as a record; `ensure`, `markUp`, `drop` and
--                `cleanup`. Session.Calls has `Connect`, `Warm`, `Probe`, `call`, `settle` and
--                `Close`, and a run: a list of those operations, each with the answers of its
--                environment. Session.Moves cuts every operation into moves, on which the
--                invariants are proved. Session.Upkeep has `Run`, `watch` and `linkOutcome`, a turn
--                for each round of the loop, while other goroutines take steps of Session.Calls.
--                Session.Origin has `OriginPreference`.
--   Noise        noise.go: `noiseSession.sendMessage` and `decryptFrame`.
--   Prologue     noise.go: what is agreed before the handshake: `selectNoiseOptions`, canonical JSON
--                and `buildPrologue`.
--   FrameBits    wire.go: `bitReader`.
--   Wire         wire.go: binary frames, `EncodeHiveBinaryFrame` and `DecodeHiveBinaryFrame`, and
--                hive.go: `BinaryFrame`. Wire.Frames says what a frame is, bit by bit.
--   Pins         noise_store.go and noise_store_file.go: `LoadNoisePin`, `SaveNoisePin`,
--                `pinNoisePeer` and `ForgetNoisePin`, `publishNoiseFile`.
--   Ask          client.go: `AskWithOptions`; what it takes for its own event and what an event changes.
--                Ask.Step has `finish`, `drain` and the loop, a round for each thing that the source's
--                `select` can take. errors.go: `refusalBelongsToAsk`; events.go: `replyMediaBudget`.
--   Admission    connections.go: `WaitForAdmission`, `sameOrigin`, `urlOrigin`, `operationIDFromLink`.
--   Streams      subscriptions.go: `eventStream`, its `subscribe`, `publish` and `stop`, and a read.
--   Deletion     connections.go: `DeleteClient`.
--   DeviceLogin  device_login.go and control.go: `deviceAuthorizationFromGrant`, `deviceTokenOnce` and
--                `pollDeviceToken`.
--   Tokens       device_login.go: `acceptToken` and `RevokeAPIToken`, cut where they let their lock go.
--   Carry        events.go: `CarryConversation` and `carriedValue`; client.go: the fields that
--                `rememberConversation` keeps.
--   Conversations  client.go: `rememberConversation`, `evictOldestConversationsLocked` and
--                `continueConversation`. Groups says when ids share a conversation, TakeOver and
--                Eviction are about its two loops, and History about any turns of a client.
--   Telemetry    transport.go: `connectionTelemetry`.
--   Wss          transport_wss.go: `WSSTransport`, and the sections of its code that change it under
--                its lock: connects and disconnects here, the reader's in Wss.Reader, a send's in
--                Wss.Writer. Wss.Moves is any order of them.
--   Languages    language_matching.go: `parseLanguage`, `maximizeLanguage`, `languageDistance`,
--                `ClosestLanguage` and `UsualForm`.
--   Intents      intents.go: `askedLanguages`, `NearestHubLanguage`, and in Intents.Reading the loop of
--                `Intents` over the languages asked for.
--   Client       client.go: `Connect`, `runOwned`, `closedBeforeReady`, `NewClientWithOptions`.
--   Protocols    protocols.go: `ProtocolSettingsFromMap`, `SpecMap`, `DataPlaneEndpointsFromHub` and
--                `SelectDataPlaneEndpoint`.
--   RuntimeConfig  control.go: `mergeRuntimeConfig` and `redactSensitiveTree`, and in
--                RuntimeConfig.Updates the rounds of `UpdateRuntimeGroupConfig`.
--   Utterances   client.go: `reserveReplyID`, `recordUntrackedSend` and `utterancesInFlight`, which
--                say to an ask what else the client has out.
--   Routing      client.go: `Reply`, `replyTo` and `ReplyContext`.
--
-- How state is modelled. A session is a record that each operation takes and returns; its log holds
-- the effects that the outside sees (a dial, a close, a notice to the watchers), the last one first.
-- What an operation learns from outside is an argument of it: the answers of the factory, of the
-- clients and of the clock are the record `Env`, and a run of a session is quantified over them all.
-- An error is the list of sentinels in its tree. Durations and times are numbers of nanoseconds; the
-- interval of a device sign-in, which grows with every answer to slow down, wraps at 64 bits as in Go
-- (`add_duration`).
--
-- Code that is not in the repository is a parameter: the cipher states of flynn/noise (`Cipher`), with
-- the assumption `Pairing` that what one encrypts the other decrypts while nonces are left; Go's
-- functions on strings and hex digits (`GoText`, `GoStrings`), net/url (`GoUrl`, `BrowserUrls`,
-- `GoEndpoints`, `TagText`), encoding/json and compress/zlib (`Codecs`), and sort.Strings, whose documented
-- behaviour is used only where a theorem says so.
--
-- Bounds and fuel. A byte slice is a list of numbers and is not bounded by memory. `send_chunks` has
-- the bytes left as fuel, and each round sends at least one. `wait_loop` is given its fuel: one round
-- more than the poll intervals that reach over the timeout is enough. `delete_loop` needs two rounds
-- of fuel, and `update_rounds` three. `poll_device_token` is given its fuel as `wait_loop` is. The padding of a
-- frame is skipped with a round more than the frame has bits, since each round reads one. A run of Run
-- is a list of turns, and it goes on when they are at an end. `take_over` has one round of fuel for each
-- id that the client's map lists, and `evict_oldest_conversations` one more, since each conversation
-- that they drop has an id there; the count of conversations and the generation of a transport wrap at
-- 2^64, and the theorem that needs it says that they have not. The tables of
-- data/language-matching.json are a parameter (`LanguageMatchingData`).
--
-- Not modelled: goroutines that run beside a session's gate, except that `Close` may mark a session
-- closed while the factory runs, and that others take steps between two looks of Run; sockets, HTTP
-- and the decoding of JSON; the text of errors; logging. Not yet: describing intents and joining their
-- rows, chat apps, listings, the HTTP and MQTT transports, and the control plane's requests.
pub mod Admission
pub mod Ask
pub mod Carry
pub mod Client
pub mod Conversations
pub mod Deletion
pub mod DeviceLogin
pub mod Errors
pub mod FrameBits
pub mod Intents
pub mod Languages
pub mod Link
pub mod Noise
pub mod Pins
pub mod Prelude
pub mod Prologue
pub mod Protocols
pub mod Routing
pub mod RuntimeConfig
pub mod Session
pub mod Streams
pub mod Telemetry
pub mod Tokens
pub mod Utterances
pub mod Wire
pub mod Wss
