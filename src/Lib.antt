-- ===== src/Lib.antt =====
-- A model of deltio, an in-memory Pub/Sub server, and the properties of its subscriptions, topics,
-- managers and requests.
--
-- The program. A client creates topics and subscriptions over gRPC. Two managers keep the handles by
-- name; behind each handle runs an actor. A topic posts its messages to the actors of the
-- subscriptions that are attached to it. An actor owns the state of one subscription: a backlog, a
-- queue for each ordering key, the tracker of the messages that were pulled and not yet acked, and the
-- queue of the messages that wait for a retry. It serves one request at a time, and between requests
-- it takes up the deadlines and backoffs that are over. Messages that come back too often go to a
-- dead-letter topic. Subscriptions with a push configuration are in a registry, which a loop goes
-- through to dispatch their messages.
--
-- The files. `Prelude` has the helpers: lists, sets and maps as association lists, keys as texts of
-- bytes, integers; `Results` the results of fallible code. `Text` prints numbers and times
-- (src/time.rs) and reads numbers. `Topics.Message` and `Topics.Name` are the messages
-- (src/topics/topic_message.rs, src/collections/messages.rs) and names (src/topics/topic_name.rs,
-- src/subscriptions/subscription_name.rs), `Topics.Actor` the topic (src/topics/topic_actor.rs,
-- topic.rs, stats.rs). `Paging` is src/paging/mod.rs, and `Registry` the state that the managers
-- share, which `Topics.Manager` (src/topics/topic_manager.rs) and `Subscriptions.Manager`
-- (src/subscriptions/subscription_manager.rs) specialise. Under `Subscriptions`, `Pulled` has ack IDs,
-- deadlines and pulled messages (src/subscriptions/pulled_message.rs, ack_id.rs,
-- deadline_modification.rs); `Policies` the backoff (policies.rs); `FlowControl` the limits of a
-- streaming pull (flow_control.rs); `Info` the configuration (subscription.rs, stats.rs); `Filter`
-- with `Filter.Lexer` and `Filter.Parser` the filter language (filter.rs); `Schedule` the sorted set
-- of keys, `Outstanding` the tracker (outstanding.rs) and `RetryQueue` the retry queue
-- (retry_queue.rs); `Actor` the actor (subscription_actor.rs), whose children follow its handlers:
-- `Post`, `Pull`, `Requeue`, `Requests`, and `Receive` for the dispatch and the select loop. Below
-- `Actor`, `Invariant` holds the invariant and one file per handler that shows it is kept,
-- `Delivery` what each handler does to the messages, and `SameInfo` which handlers keep the settings.
-- `Server` puts the managers, the actors and the push registry together: `Server.Route` says where
-- the calls arrive that leave an actor, `Server.Calls` what a call of a handle does. `Api` is the gRPC
-- front (src/api): `Api.Parser` with a child per group of parsers (parser.rs, page_token.rs),
-- `Api.Publisher` (publisher.rs), `Api.Subscriber` (subscriber.rs) and `Api.Resources` (the resources
-- that the answers hold). `Push` is the registry of src/push/mod.rs, `Push.Loop` the dispatch
-- (push_loop.rs) and `Push.Metrics` its counters (metrics.rs); `Metrics` the text that is scraped
-- (src/metrics). `Tests` has runs at concrete inputs.
--
-- State and operations. Each struct is a record with the fields of the source, and each method a
-- function that returns the new state; what leaves the actor is logged as a signal. A `HashMap` is an
-- association list and a `HashSet` a list without repetitions; the order of iteration is that of the
-- list, which is arbitrary. A `BTreeSet` is a sorted list. A clock reading is a natural number of
-- nanoseconds, an argument of the request. Machine words are natural numbers with their wrap written
-- out. An unchecked unwrap that would be undefined behaviour is `none`. One turn of the select loop is
-- a function of the event it takes up; the runs of an actor are the data type `Reach` of
-- `Subscriptions.Actor.Invariant`, given turns in order `run_turns` of `Subscriptions.Actor.Delivery`,
-- and those of a server the one of `Server.Settings`.
--
-- Calls. A handle leads to its actor by an internal ID. A call is answered at once, and what the actor
-- sends on meanwhile arrives before the caller goes on. The actor of a topic is there until the topic
-- is deleted, and that of a subscription until it has announced its deletion; a call of an actor that
-- is gone fails. The posts of a publish, which run concurrently, arrive in the order of the list.
--
-- Third parties. Base64 is an interface with its laws, the answers of push endpoints and the text of
-- floating-point numbers are arguments.
--
-- Counting. `stored f a` is the weight `f` of all messages that the subscription `a` has. An
-- equation for every weight says that no message is lost or made, since an indicator is a weight.
--
-- Fuel. The loops over lists and over the trackers are structural recursion. The lexer and the parser
-- of filters run on fuel, the length of the text and the number of its tokens plus one; each round
-- takes up a byte or a token at least. `trim` runs on the length of the text. A decimal number is
-- printed with fuel 20, which is enough for a 64-bit word.
--
-- Not modelled: the channels and tasks of tokio, whose interleavings are the orders of the events;
-- timeouts and the futures of the observer; the HTTP client and server and JSON; the conversion of
-- calendar times in seek requests; the texts of error messages and logs; the process itself.
pub mod Prelude
pub mod Text
pub mod Topics
pub mod Subscriptions
pub mod Paging
pub mod Push
pub mod Registry
pub mod Metrics
pub mod Server
pub mod Api
pub mod Results
pub mod Tests
