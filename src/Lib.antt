-- ===== src/Lib.antt =====
-- Prime Focus CSS API: a model of the core of the customer-support API and what holds of it.
--
-- The program is an Express service over PostgreSQL. A request or a job calls a service module,
-- which checks the actor, opens a transaction, changes rows through its repository, calls other
-- services with the same transaction, and leaves events, jobs and notices for after the commit.
-- The parts modelled here are the ones that decide something:
--
--   Sla: the clocks on a ticket. Sla.Clock is src/modules/sla/sla.clock.ts, business-hours
--   arithmetic without I/O (Windows: times of day and the windows of a weekday; Zone: local time;
--   the walks addBusinessMinutes and businessMinutesBetween as functions on fuel, 731 and 1001 days,
--   the bounds of the code's own loops). Sla.Store is sla.model.ts and sla.repository.ts: tables as
--   lists of rows, queries as find_where and select_where, writes as update_where. Sla.Service is the
--   ticket lifecycle of sla.service.ts and Sla.Scan its breach scan.
--   Ticket: Status is src/modules/ticket/ticket.status.ts, Store the rows of ticket.model.ts with
--   what the service reads of products, categories and users, and Service is ticket.service.ts:
--   update_fields, assign, reopen, register_customer_reply and register_agent_reply. A change of
--   status drives the clocks through Sla.Service.on_status_changed, as in the code.
--   Routing: src/modules/routing/routing.scoring.ts, rule matching and the choice of an agent.
--   Auth: src/modules/auth/auth.service.ts with the parts of src/modules/mfa and src/modules/user that it
--   stands on. Auth.Store is the tables and what their repositories do to them; Auth.Sessions refresh
--   tokens, families and the ways out; Auth.Mfa the emailed codes and trusted devices; Auth.Login signing
--   in by password, code, invitation or provider; Auth.Passwords resets and changes. A call gives its
--   result or error beside the database, since it keeps what it wrote before it throws.
--   Auth.Sessions.Traces has every one of these calls as a step.
--   Invitation: src/modules/invitation, over the tables of Auth and its own: accepting one activates the
--   account and signs it in through Auth.Login.start_session_for_activated_user.
--   Escalation: src/modules/escalation/escalation.service.ts, the ladder of rules over running targets,
--   with the claim of escalation.repository.ts; it measures a target by Sla.Clock.consumed_fraction.
--   Cache: src/lib/cache/store.ts, the in-process map and remember; Cache.Refinement has the map without
--   bound that it is compared with.
--   Idempotency: src/common/middleware/idempotency.ts, an exchange as two steps on the table of keys, with
--   steps of other exchanges in between.
--   Sso: src/modules/sso/sso.policy.ts, whom an identity provider may vouch for and where a
--   sign-in may lead.
--   Common: errors and permissions (src/common), calendar dates as Date.UTC counts them, lists as
--   tables, tests on numbers, and the floating-point numbers of the runtime.
--
-- An instant is a natural number of milliseconds, a uuid a natural number that is only compared, a
-- text a list of character codes. A service call takes the state and gives the new state or an
-- error; an error leaves the state of before, which is what withTransaction does
-- (src/db/transaction.ts), but in Auth, as said. The time of a call is an argument. Calls are not
-- interleaved, except that the breach scan re-reads its target, so that a world between the query and
-- the transaction is any world, and that other exchanges come between the steps of an idempotent one.
--
-- What is not under src is a parameter: `intl` gives the wall clock of an IANA zone (Intl of the
-- runtime), `by_name` compares two ids (localeCompare) and `lower` is toLowerCase. A hypothesis on
-- them says that a zone is known, or that a comparison is an order. `calendar_for` is the result of
-- calendarFor during a call, whose cache keeps what the database gives. Local times before 1970 are
-- cut off at the epoch. A load ratio of two agents is compared exactly, by cross multiplication,
-- where the code divides two floating-point numbers. The share that a target has used up is a double,
-- rounded as the code rounds it (Common.Doubles, for numbers below 2 ^ 53 and up to 128 binary places:
-- enough for a quotient of counts of minutes, which have 105 places at most, and its percentage).
-- Of the message of an error only what a not-found error names is kept.
--
-- What is drawn at random, a token, a code, the id of a family, a salt, is an argument, and so is what
-- the runtime computes of texts and bodies: `hash_secret` and `hash_otp` (digests of node's crypto),
-- `verify` and `hash_password` (argon2), `hash_body` (SHA-256 of JSON), `parse` and `stringify` (JSON).
-- No hypothesis says that a digest has no collisions. The walks of Sla.Clock and the search for the
-- places of a double are the only functions on fuel; every other loop is recursion on the list that the code iterates over.
--
-- Not modelled: the transport, the third-party adapters of src/lib, the Redis branch of the cache,
-- logging, and the modules that store and list rows without a rule of their own; the SSO exchange and
-- issuer check, API keys, the creation of invited accounts, webhooks, retention and the
-- creation of tickets.
pub mod Common
pub mod Sla
pub mod Ticket
pub mod Routing
pub mod Auth
pub mod Sso
pub mod Cache
pub mod Escalation
pub mod Idempotency
pub mod Invitation
