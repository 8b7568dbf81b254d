-- ===== src/Lib.antt =====
-- The identity provider: accounts, clients and OAuth tokens, as one library.
--
-- The program is a NestJS server over PostgreSQL (by Prisma) and Redis. A request reaches a
-- service through a controller; a service checks, calls repositories, which call Prisma, and the
-- Redis, object, mail and message libraries. Here a request is a function from a state to a result
-- and a state.
--
-- Prelude: tests on numbers and texts, and JavaScript's list idioms.
-- Exec: handlers (`Exec S A`): exceptions as values, with the state that they leave; guards, loops
--   of guards, `catch`; what a block that returned has gone through; predicates that steps keep.
-- Schema: the rows of prisma/schema.prisma, and the values that are cached.
-- Platform: the libraries, as records of functions (`Platform`), and the state (`World`): the
--   database, the cache, a clock in milliseconds, the number of random draws, what was sent.
--   Platform.Laws has the documented behaviour of Redis and Prisma that theorems rely on: what a
--   key or a row holds after a call that succeeded. No law says that a call succeeds.
-- Redis: libs/redis/src/redis.service.ts. Database: the pattern `await prisma….catch(…)`.
-- Random, Outbox: random draws; libs/object, libs/mail and libs/aligo.
-- Oauth: src/oauth/oauth.service.ts (Service and its children) and
--   src/oauth/oauth.repository.ts (Repository). `authorize`, `code_grant`, `refresh_token_grant`,
--   `client_credentials_grant`, `token`, `revoke`, `userinfo` and `consent` are the methods
--   `authorize`, `codeGrant` and so on, the generation of tokens and rows included.
-- Client: src/client/client.service.ts, src/client/client.repository.ts and
--   src/client/guard/role.guard.ts.
-- User: src/user/user.service.ts and src/user/user.repository.ts.
-- Auth: src/auth/auth.service.ts and src/auth/auth.repository.ts. Machine has an abstract machine
--   of sessions, Refines its steps.
-- Verify: src/verify/verify.service.ts.
-- Api: the HTTP surface. Http has the guards (libs/global/src/extractor, src/auth/guard,
--   src/oauth/guards), Views the response DTOs, Scope the transforms of src/oauth/dto/req.dto.ts,
--   Bodies those of e-mail addresses (the req.dto.ts of src/verify, src/auth and src/user) with the
--   validators of libs/global/src/validator, and a module per controller its endpoints (src/oauth/oauth.controller.ts and so on;
--   UserController has those of src/verify/verify.controller.ts too). Split, Basic, Owners and
--   Mailed have proofs.
--   Cors is the delegator of src/main.ts, Discovery the document of src/well-known.
-- Requests: the server as a whole. Steps has a constructor for each route, the state that it
--   leaves, and the relation `Leads` of any sequence of requests and of time that passes. Frame
--   says what a step does to a key of Redis that it does not write; Accounts, Grants, Kept and
--   Traces say so of each operation and of sequences; Once and Codes draw the conclusions.
-- Tests: a concrete platform with maps for Redis and the tables, which meets the laws, runs on it,
--   and the theorems applied to those runs.
--
-- A definition has the name of its method in snake case. The state goes through every step, and
-- comes back beside an exception too, since no request is rolled back as a whole. Redis keys are
-- `prefix:key`; a cached value expires when the clock reaches the time of the write plus the given
-- seconds. Random values are functions of the number of draws made before; nothing is assumed of
-- them but what a theorem names. Loops are over lists. The one bound on recursion is that of
-- `decimal` (Verify.Digits): 7 digits, for draws below 1000000.
--
-- Not modelled: the other checks of class-validator and the pipes on parameters, which are
-- libraries, so that bodies and parameters are those that passed them (the endpoints of the
-- controllers take e-mail addresses as the handler receives them); the throttler of phone codes;
-- logging, mail templates and `certs`, which keep no state; the time in which a command that
-- nothing waits for is under way (the write of the new session in `refresh`), and what the process
-- does with its error; the cast of `JSON.parse`, where a value of another shape counts as missing;
-- the sender of mails; other requests between the steps of one request.
pub mod Prelude
pub mod Exec
pub mod Schema
pub mod Platform
pub mod Redis
pub mod Database
pub mod Random
pub mod Outbox
pub mod Oauth
pub mod Client
pub mod User
pub mod Auth
pub mod Verify
pub mod Api
pub mod Requests
mod Tests
