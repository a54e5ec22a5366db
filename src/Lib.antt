-- ===== src/Lib.antt =====
-- Verification of zapi-pwa, a web application and a daemon around a WhatsApp gateway that transcribe
-- audio messages and answer with the text.
--
-- The parts and how they work together. The daemon (packages/daemon) reads the event stream of the
-- gateway "waclaw", makes an audio event of each audio message, downloads the audio and posts the
-- event to the web application (packages/pwa), which decides whether to transcribe it, calls the
-- transcription service, stores the rows and returns the text of the reply, which the daemon sends.
-- A second path of the web application is a queue of jobs in Redis that a worker takes one by one,
-- guarded by a circuit breaker.
--
--   Jid            packages/pwa/src/lib/jid.ts: parsing, normal form and matching of identifiers
--   Filter         packages/pwa/src/lib/filter.ts, and the event of
--                  packages/shared/src/validators/events.ts: which audio is transcribed
--   OpenAi         packages/pwa/src/lib/openai.ts: invented transcriptions, transcription, summary
--   Redis          the client that packages/pwa/src/lib/redis.ts makes, as commands with laws;
--                  Redis.Memory is a store that meets them
--   Queue          packages/pwa/src/lib/queue.ts
--   CircuitBreaker packages/pwa/src/lib/circuit-breaker.ts
--   Worker         packages/pwa/src/app/api/worker/route.ts
--   OnAudio        packages/pwa/src/app/api/internal/on-audio/route.ts and lib/footer.ts: the rows
--                  and pure parts; OnAudio.Handler is the handler, step by step
--   Daemon         packages/daemon/src: Forwarder is forwarder.ts with the handler of index.ts,
--                  Client is waclaw-client.ts
--   Formatters     packages/pwa/src/app/app/lib/formatters.ts: names, tabs and avatar colours
--   Chats          packages/pwa/src/app/app/hooks/useChats.ts: reload, deduplication, unread marks,
--                  filters and order of the list of chats
--   Messages       packages/pwa/src/app/app/hooks/useMessages.ts: deletion, stars, polling, loads and
--                  the cache of the messages of a chat; Messages.Sending has the sends, the older
--                  messages and the transcriptions
--   Tasks          packages/pwa/src/app/api/tasks/[id]/route.ts: reading, changing and deleting a task;
--                  Tasks.Creating is the POST of packages/pwa/src/app/api/tasks/route.ts;
--                  Tasks.Participants, Tasks.Thread and Tasks.Direct are the routes below [id]
--   Transcribe     packages/pwa/src/app/api/transcribe/route.ts and transcribe-raw/route.ts
--   Webhook        packages/pwa/src/app/api/webhook/route.ts, in front of the queue
--   Admin          packages/pwa/src/lib/admin-auth.ts and packages/pwa/src/app/api/admin
--   Instances      packages/pwa/src/app/api/instances: the handlers that change something
--   Summary        packages/pwa/src/app/api/summary/route.ts
--   Voice          packages/pwa/src/app/app/components/VoiceRecorder.tsx: the recorder of voice messages
--                  as a state machine, with the browser's microphones and timers
--   Scheduled      packages/pwa/src/app/api/scheduled, starred/route.ts and user-settings/route.ts
--   Middleware     packages/pwa/src/middleware.ts
--   TaskList       packages/pwa/src/app/app/hooks/useTasks.ts and components/TaskListPanel.tsx: the tasks
--                  of the page, their numbers and filter
--   VCard, Linkify packages/pwa/src/app/app/lib/vcard.ts and linkify.tsx
--   Routes, Sorting
--                  early returns and answers of the handlers, and a stable sort
--   Base64         the base64 coding of the runtime, which carries the audio between the two
--   Strings, Base, Effect
--                  the string methods that the code calls, the shared names, and code that may throw
--   Tests          concrete services and inputs
--
-- A text is a list of UTF-16 code units. State is passed explicitly: Redis, the database and the
-- services are states of unknown type with operations, arguments of the definitions that use them;
-- what a theorem relies on is a record of laws (IsLawful, IsClient, IsTable), and the tests give an
-- instance of each. IsClient says what the Redis client gives for a stored job: an object that it
-- has parsed, as the client of redis.ts does, which is made without options, or the stored text. The
-- theorems on the queue and the worker hold for both, and say what each brings. Code that awaits
-- calls which may throw is a function from the state to an outcome and the new state. The handlers
-- keep a log of the calls that they make; a logged insert was tried, and the database may have
-- refused it. `JSON`, random ids, dates and the clock are arguments. No definition needs more fuel
-- than the source's own loop bounds: four rounds of the download, three of the post. The endless
-- loops of the stream client run over the list of the connections and chunks that arrive.
--
-- Not modelled: the expiry of Redis keys, failures of Redis, concurrent requests, the checks of the
-- zod schemas, letters outside ASCII in `toLowerCase`, and negative or fractional numbers in events.
-- The timers and the rendering of the user interface, the routes that only read, push
-- notifications, the proxy to the gateway and the gateway itself (packages/waclaw-go) are not part
-- of the development.
pub mod Base
pub mod Strings
pub mod Jid
pub mod Filter
pub mod Effect
pub mod OpenAi
pub mod Redis
pub mod CircuitBreaker
pub mod Queue
pub mod Worker
pub mod Daemon
pub mod Base64
pub mod OnAudio
pub mod Formatters
pub mod Chats
pub mod Messages
pub mod Tasks
pub mod TaskList
pub mod Linkify
pub mod VCard
pub mod Routes
pub mod Sorting
pub mod Transcribe
pub mod Webhook
pub mod Voice
pub mod Scheduled
pub mod Middleware
pub mod Admin
pub mod Instances
pub mod Summary
pub mod Tests
