-- ===== src/Lib.antt =====
-- A verification library for WATS, a TypeScript toolkit for the WhatsApp Business platform: a Graph
-- API client, webhooks that come in over HTTP, a router for their updates, and a SQLite store that
-- makes sends and receipts durable.
--
-- The program's parts and the modules on them:
--   packages/graph: a request passes through `createReliableTransport` (reliableTransport.ts), which
--     admits each attempt through a token bucket (rateLimiter.ts), sends it, and asks a retry rule
--     and a delay whether and when to send it again. Graph.RateLimiter is `createTokenBucketRateLimiter`,
--     Graph.RetryAfter is `parseRetryAfterMs`, Graph.RetryPolicy the options, `makeDefaultRetryOn` and
--     `boundedDelayMs`, and Graph.ReliableTransport the loop of `request`. Graph.Pagination is `paginate`
--     with `paginateAll` (pagination.ts). Graph.ErrorRegistry (errorRegistry.ts) and Graph.Errors
--     (errors.ts) are the registry of error codes and `createGraphApiError`, which consults it.
--     Graph.Endpoint is `defineEndpoint` (endpoint.ts): the checks of a definition, and the path and the
--     query that a call makes of its parameters. Graph.PathTemplate, which it uses, is
--     `parsePathTemplate`, `assertSafePathParamValue` and `resolvePath`.
--   packages/http: a webhook comes in through `createFetchWebhookHandler` or `createNodeWebhookHandler`
--     (adapters/fetchAdapter.ts, adapters/nodeAdapter.ts), Http.Wrappers, which read its body up to the
--     limit and pass it to `handleRequest` of `createWebhookAdapter` (adapters/webhookAdapter.ts),
--     Http.Adapter, whose configuration is Http.AdapterConfig. It answers the verification
--     handshake by `verifyWebhookChallenge` (webhookServer.ts), Http.Challenge, and checks a webhook
--     by `validateWebhookSignature` (signature.ts), Http.Signature, and `isBoundedEnvelope`,
--     Http.Envelope, before its updates are normalized and dispatched.
--   packages/core: an update that a webhook brings goes to `TypedRouter.dispatch` (typedRouter.ts),
--     which lets the listener registry (listener.ts) see it first and then runs handlers.
--     Core.Filters is the combinators of
--     filters (filtersTyped/combinators.ts), Core.Listener is `createListenerRegistry`, Core.Router the registrations and Core.Dispatch the
--     dispatch, which calls Core.Listener.
--   packages/persistence: Persistence.Table and Persistence.Validation are what sqlite.ts uses of SQL
--     tables and its checks of records. Persistence.ServiceRequests is the table of idempotent
--     requests (`claimServiceRequest`, `completeServiceRequest`, `recordServiceRequest`,
--     `getServiceRequest`), Persistence.Messages the projection of messages and the status events
--     (`recordMessage`, `appendMessageStatus`, `getMessage`), Persistence.MessageList its listing in
--     pages (`listMessages`), Persistence.Outbox the items that workers claim
--     with a lease (`enqueueOutboxItem`, `claimOutboxItems` and the marks), Persistence.OutboxRun one run of a
--     worker over them (`runOutboxWorkerOnce`, outbox.ts), Persistence.OutboxWorker the
--     timer loop of `startOutboxWorker` (outboxWorker.ts), and Persistence.ConversationWindow the
--     window for free-form messages (conversationWindow.ts), which reads Persistence.Messages.
--     Persistence.WebhookEvents is the table of the updates that were seen (`recordWebhookEvent`).
--   packages/service: Service.KeyedSend is the handlers of messages (`handleTextMessage`,
--     `handleGenericMessage` in index.ts) with `claimKeyedSend` and `completeKeyedSend`
--     (serviceRequests.ts), which claim an idempotency key in Persistence.ServiceRequests, send, and
--     store the response; Service.JsonText is the JSON text of the namespaced key. Service.Webhook is
--     `handleWebhook` with a store: it takes the updates from Http.Wrappers, records each under its
--     key (Service.DedupKeys, over the canonical JSON text of Service.Canonical, both of
--     webhookIngress.ts) in Persistence.WebhookEvents, projects them (Service.Projection) into
--     Persistence.Messages, and dispatches the new ones.
--   Base: Boolean tests, lists measured by native numbers, results that may be errors, texts as lists of
--     UTF-16 code units, and JSON values.
--
-- How the code is modelled. A method is a function on a record of its object's state; a throw or a
-- rejection is an `err` of Base.Result. Methods of the store run as one step each, as each is one
-- statement or one transaction. What is asynchronous is split at its `await`s: a loop takes what its
-- awaited calls give as a list or a function of the attempt (`Turn`, `Round`, `fetch`), and the outbox
-- worker is a step relation whose steps are the firing of a timer, a callback that is run again, the end of a tick and a stop. Names of
-- fields and functions are those of the source in snake case.
--
-- Numbers. JavaScript numbers that the code checks to be integers are natural numbers; numbers of seconds,
-- of tokens and of random choices are fractions or are scaled to whole units, and the rounding of
-- binary floating point is not modelled. Timestamps that the store validates are canonical ISO
-- texts, ordered as their times, and are milliseconds here.
--
-- Bounds and fuel. `paginateAll` has as much fuel as its maximal number of pages, each turn reads one
-- page, and it is shown never to run out. `request` has as much fuel as the attempts of the policy,
-- which is shown to be enough. `isBoundedEnvelope` has as much fuel as the value has nodes, and is shown
-- to be the test of the nesting by recursion. All other loops are structural. `acquire` takes the turns of its
-- waiting loop as a list and may still be waiting at their end.
--
-- Parameters. The platform's `Date.parse`, `TextEncoder`, clock, random numbers and `Headers`, the
-- inner transport, the injected limiter, the injected crypto provider, filters' predicates, handlers, the
-- text decoding, the JSON and URL parsers, the SHA-256 digest, the normalizer of webhooks, the success of
-- the facade's dispatch, what the Graph API gives to a handler and the failures of the database engine are
-- arguments of the definitions. The theorems on signatures ask of a provider that its digest is 32 bytes
-- long, and they and the one on the handshake that it compares byte strings of one length by equality.
-- The calls that others make on the outbox while a handler of an item runs are an argument, too.
--
-- Not modelled: the client, the endpoints' bodies and builders, the normalizer of webhook payloads, the
-- filters of its update kinds, the facade, configuration and command line, the crypto adapters,
-- migrations, the PostgreSQL adapter, the routes, telemetry and bearer tokens
-- of the service, and message texts. They are input and output, tables of data, or are left for later
-- additions to this library.
pub mod Base
pub mod Graph
pub mod Core
pub mod Http
pub mod Persistence
pub mod Service
