-- ===== src/Lib.antt =====
-- A verification library for developer_service, the Go service through which bots and API clients read and write
-- chatterloop conversations and posts. Each file says in its first comment which code it is about; paths are from the
-- root of the repository.
--
-- A request passes the middleware of internal/auth (a bearer credential, its rate limit, the permission of the route)
-- and reaches an endpoint, which calls internal/platform. That package decides who may read or write a conversation or
-- a post, reads and writes Postgres and Mongo, notifies people through Redis, and hands jobs to a worker through
-- internal/queue.
--
-- Common holds the shared notions: byte texts (a Go string is the list of its bytes), maps as association lists with
-- the latest write first, and what a store answers: `Fetched` is a query's result (a row, no row, or an error), `Rows` a
-- stream of rows as Next, Scan and Err read it.
--
--   Auth/Token         internal/auth/token.go       ParseToken, Verify, HasScope, TouchLastUsed
--   Auth/Authorize     internal/auth/token.go       Authorize, hasExplicitGrant with its SQL conditions
--   Auth/Window        internal/auth/ratelimit.go   windowBounds
--   Auth/RateLimit     internal/auth/ratelimit.go   CheckRateLimit on any store with INCR and EXPIRE
--   Auth/Middleware    internal/auth/middleware.go  Middleware, RequireScope
--   Platform/Identity  internal/platform/identity.go       dedupe, HandlesFor
--   Platform/Mentions  internal/platform/mentions_parse.go ExtractMentions
--   Platform/Sanitize  internal/platform/mentions_parse.go SanitizeForStorage
--   Platform/Bson      the document values that internal/platform decodes
--   Platform/Messages  internal/platform/messages.go       decodeMessage, decodeReplyingTo, RepliesTo
--   Platform/Thread    internal/platform/thread.go         ReplyThread, linkedAncestors, ancestorSegment
--   Platform/Moderation internal/platform/moderation.go    the reads and their filter
--   Platform/Membership internal/platform/membership.go    AssertMember, Receivers, RealmName
--   Platform/Community internal/platform/community.go      permits, loadPostAccess, communityFrameAllowed
--   Platform/Notifications internal/platform/notifications.go and the ids of internal/platform/send.go
--   Platform/Comments  internal/platform/comments.go       CreateComment and who is told
--   Platform/Send      internal/platform/send.go           SendMessage and its fan-out, as effects in order
--   Platform/Mentionable internal/platform/mentionable.go  ResolveMentions, blockedEntityIDs
--   Platform/Activity  internal/platform/mentions.go       CommentMentions, CommentReplies, commentRowsForViewer
--   Platform/Posts     internal/platform/posts.go          LoadPostThread, with MarshalJSON of community.go
--   Platform/PostActivity internal/platform/post_activity.go and the order of commentFanOut of comments.go
--   Platform/Entities  internal/platform/entities.go       SearchEntities, ProfileRedirect
--   Platform/Conversation internal/platform/messages.go    LoadConversation, RecentMessages, ToEpochMillis
--   Queue              internal/queue/queue.go             Publisher
--   Presence           internal/presence                   Recorder, Scope, SignFrame; calls interleave as events
--   Stream             internal/stream/sse.go              Serve, on the list of what its select receives
--   Config             internal/config/config.go           Load, over a parameter for the environment
--   Endpoints          internal/endpoints/endpoints.go     the handlers, composed with internal/platform
--   Routes             cmd/developer/main.go               the table of routes, and a guarded call of a handler
--
-- State is passed explicitly: the counter store of a rate limit, what a notification leaves behind, the effects of
-- a send, the table of comments, the session rows, the publisher with the log of
-- what the broker was told. Queries, drivers, the random source, the clock, SHA-256 and the JSON decoder are parameters; what is relied on of them is a named hypothesis, and each theorem with
-- one is applied to a concrete instance in a module of tests.
--
-- In Auth times are nanoseconds from the first instant of year 1 in UTC, as time.Truncate counts them; elsewhere a
-- file says what its times are. The loop of ReplyThread runs on fuel, as many rounds as its budget: every round but the last follows a link. RealmName runs on fuel because
-- the code does not bound its recursion; the ids of messages and notifications are drawn five times, as in the code.
--
-- Not modelled: the opening of connections and the shutdown of the server, which only call drivers. JSON bodies, the sentences
-- of refusals, logging and the mutex of the publisher are left out: none of them decides anything modelled
-- here. The goroutine that announces a connection is run with the connection itself.
mod Common
pub mod Queue
pub mod Presence
pub mod Stream
pub mod Config
pub mod Endpoints
pub mod Routes
pub mod Platform
pub mod Auth
