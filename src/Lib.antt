-- ===== src/Lib.antt =====
-- xdauth: a broker for cross-device logins. A client on one device starts a login (`/auth/start`), its
-- user signs in with a browser on another (`/auth/verify`, the provider, `/auth/callback` or
-- `/auth/saml/acs`), confirms a code there (`/auth/approve`), and the client polls for an artifact that
-- names the user (`/auth/poll`).
--
-- Which file models which part:
--   Session, Machine     internal/store/store.go (the record), internal/broker/session.go. A function
--                        that changes `*store.Session` returns the new session; what it returns is the
--                        second component. `Machine.Trace` is a session's life as a list of calls.
--   Pkce, UserCode       internal/broker/pkce.go, usercode.go
--   ClientIp, ClientAuth internal/broker/clientip.go, clientauth.go; the tokens of
--                        cmd/xdauth-broker/main.go
--   RateLimit, Detect    internal/broker/ratelimit.go, detect.go: the maps are lists of pairs
--   Store                the interface of internal/store/store.go and the laws that a client of it uses;
--                        `Store.Memory` and `Store.Redis` are its implementations
--   Config, Broker       internal/broker/broker.go, log.go, idp.go, templates.go, handlers.go: a handler
--                        is a function of the broker's state and the request to the new state and the
--                        response. `Broker.Start`, `Verify`, `IdpResponse`, `Approve`, `Poll` and
--                        `Cookies` are handlers.go; `Broker.Router` is the table of routes, and
--                        `Broker.Race` is about calls that overlap.
--   Oidc, Saml           internal/oidc/oidc.go, internal/saml/saml.go: the two identity providers.
--                        `Saml.New` is the set-up of the second, with its certificate.
--   System               the calls, served one after the other
--   Client               pkg/client/client.go
--   Command              cmd/xdauth-broker/main.go: the parsers of its settings and the retries;
--                        `Command.Startup` is `run` with its exit codes and the two providers
--   Tools                cmd/xdauth-login, cmd/xdauth-pam, cmd/xdauth-pam-native and cmd/xdauth-sshd, as
--                        functions of the broker's answers
--   Deployment           a client against the handlers: what it decodes of their answers, and its calls
--                        among all others
--   Text, Http, Json, Net, Platform   what the code uses of Go's standard library
--   Prelude, Examples    shared names and lemmas; test data and theorems at concrete inputs
--
-- The handlers take the store as a parameter with its laws (`Store`, `StoreLaws`), the provider as
-- `IdentityProvider` with `System.IdpLaws`, and the rate limiter's bucket as `Limiting`, so that what is
-- stated of the handlers is stated for both providers and for every store that keeps the laws: the one
-- in memory does, and Redis does for the sessions that JSON gives back (`StoreLawsFor`,
-- `Store.Redis.Json`).
--
-- Choices. Strings are lists of bytes. Times are nanoseconds since Go's zero time, and are not bounded;
-- a difference of times is compared by moving a term to the other side. Durations of the configuration
-- may be negative; those that come of seconds, and the client's interval, wrap around as `int64` does.
-- A handler reads the clock once, where the code reads it again within microseconds.
-- Random bytes are arguments, with `none` for an error. Every recursion is on the data, so that no fuel
-- is used; the client's loop runs over the broker's answers, and its context ends with them. A panic is
-- a value (`nil_identity`). Errors are compared by their sentinel, their messages are left out.
--
-- Not modelled: SHA-256, the Unicode tables and the parsers of package netip are functions of `Platform`
-- with what is used of them as laws; go-redis, encoding/json, go-oidc, x/oauth2, crewjam/saml,
-- x/time/rate, x/crypto/ssh, libpam, net/url and package crypto are parameters; chi matches
-- paths as it documents; the HTML templates, which are output only, and signals are left out.
pub mod Prelude
pub mod Text
pub mod Net
pub mod Platform
pub mod Json
pub mod Session
pub mod UserCode
pub mod Pkce
pub mod Machine
pub mod Http
pub mod ClientIp
pub mod ClientAuth
pub mod Detect
pub mod RateLimit
pub mod Store
pub mod Config
pub mod Broker
pub mod Oidc
pub mod Saml
pub mod Client
pub mod Command
pub mod Deployment
pub mod Tools
pub mod Examples
pub mod System
