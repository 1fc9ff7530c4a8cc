-- ===== src/Lib.antt =====
-- Verification of the gateway: its path parser and resolver, its router and policies, its FastCGI
-- client, releases and the watchdog of php-fpm; its management dashboard; and the parts of the
-- management server that this talks to.
--
-- The program. `gateway` (cmd/gateway, internal/) serves PHP sites; internal/ui is its management
-- server, with a JSON API under /api and a web dashboard (dashboard/). Each page of the dashboard
-- fetches its data through the hook `useApi`, sends its requests through `api`, and keeps its own
-- React state. The server's mux gives a request to a handler, which works on the list of sites, the
-- configuration, the releases or the log buffer. A request is parsed and resolved to a file
-- (internal/filesystem), routed (internal/router) and judged (internal/policy), and a script is run
-- over FastCGI (internal/php/fastcgi) by php-fpm, which internal/supervisor keeps running;
-- internal/deploy decides which release of a project is served.
--
-- Which file models what.
--   Dashboard/Types: dashboard/src/types/index.ts, a record for each interface.
--   Dashboard/Hooks: `useApi` of dashboard/src/hooks/useApi.ts. A load is split at its `await`: `load`
--     runs before, `settle` after, and a history of events interleaves them freely. Hooks/Interval is
--     `useInterval`.
--   Dashboard/Client: `request` and `api` of dashboard/src/api/client.ts. Client/Encoding is
--     encodeURIComponent, a function of the JavaScript library.
--   Dashboard/Sites: dashboard/src/pages/Sites.tsx: the state and its simple changes; Sites/Handlers
--     has the event handlers and the machine, Sites/View what is shown.
--   Dashboard/Logs: Logs.tsx. Dashboard/Extensions: Extensions.tsx. Dashboard/Config: Config.tsx, over
--     the untyped objects of Dashboard/Json. Dashboard/Tester: RequestExplorer.tsx, and Routes.tsx in
--     Tester/Inspector and Tester/View. Dashboard/Deployments: Deployments.tsx. Dashboard/Overview:
--     Dashboard.tsx (Overview/Home is the page), Doctor.tsx and Runtimes.tsx, all in
--     dashboard/src/pages.
--   Dashboard/Nav: dashboard/src/App.tsx and components/Layout.tsx and CommandPalette.tsx.
--   Dashboard/Notice: dashboard/src/components/Modal.tsx.
--   Server/Mux: the routes of internal/ui/server.go and the methods that the handlers of
--     internal/ui/handlers.go go on with. Server/Query: how they read a query.
--     Server/SitePath: `generateID`, and what `handleSiteByID` and `handleExtensionsSite` read from a
--     path. Server/LogBuffer: `LogBuffer` of internal/ui/server.go.
--     Server/SiteManager: which sites have a server (internal/ui/siteManager.go). Server/Sites:
--     `handleSites` and `handleSiteByID` on the list of sites, the servers and the log. Server/Serving:
--     `siteHandler.ServeHTTP`, up to the file that is served or run; Serving/Roots has the lemmas on
--     paths below a web root, Serving/Inside the theorem.
--   Gateway/Path: `ParsePath` of internal/filesystem/path.go, on bytes. Path/Decode and Path/Segments
--     have the lemmas on decoding and on segments, Path/Safe and Path/Normal the theorems.
--   Gateway/FastCgi: internal/php/fastcgi/protocol.go. Length and Record are the codecs, Params and
--     Request what `Execute` writes, Response what `readResponse` collects. How a server reads a
--     request (Params, Request/Received) is written from the protocol, as the reference. FastCgi/Pool is
--     internal/php/fastcgi/pool.go: `Get` is split where it gives up the lock, Pool/Moves lets its users
--     take turns in any order, Pool/Accounts is the invariant.
--   Gateway/Cgi: `ParseResponse` of internal/php/cgi/response.go; Cgi/Lines has the lemmas on header
--     lines. Gateway/CgiParams: internal/php/cgi/params.go.
--   Gateway/Forwarded: internal/observability/forwarded.go.
--   Gateway/Router: internal/router/match.go and rewrite.go. Router/Rounds and Router/Itself have the
--     rounds of `RewriteLoop`.
--   Gateway/Policy: internal/policy/engine.go; Policy/Mode and Policy/Network are mode.go and network.go
--     beside it. Policy/Order is about the order of the rules, Policy/Verdict and Policy/Enforced about
--     what they decide.
--   Gateway/Resolver: internal/filesystem/resolver.go, over Gateway/FilePath, which has what it uses of
--     the package path/filepath. Resolver/Clean has the lemmas on joined paths, Resolver/Located and
--     Resolver/Found the theorems.
--   Gateway/Deploy: the `ReleaseManager` of internal/deploy/release.go; Deploy/Switcher and Deploy/Canary
--     are switcher.go and canary.go beside it. Deploy/Machine puts their operations in sequence,
--     Deploy/History is the abstract state that they refine.
--   Gateway/Watchdog: internal/supervisor/watchdog.go; Watchdog/Rate puts checks in sequence and keeps
--     the times of all restarts.
--   Gateway/RateLimit: internal/policy/ratelimit.go; RateLimit/Bounds puts requests in sequence.
--   Prelude: shared names and lemmas. Witnesses: the theorems at concrete inputs.
--
-- How a page is modelled. Its `useState` values and its hooks are one record; a handler is a
-- function on it. A handler that awaits is the call that it makes and a function of how the promise
-- settles; where its closure reads values, these come from the record of the render in which it was
-- made. The page is then a machine of events, `step` and `run`, in which settlements come in any
-- order. Buttons and inputs that are not rendered or disabled have no effect.
--
-- How the gateway is modelled. A method that holds a lock is one step, but for
-- ReleaseManager.Rollback and Switcher.Deploy, which let go of the lock of the manager in between, and
-- for the handlers of sites, which hold none: these are one step as long as nothing comes in between.
-- Server/Sites/Overlap has two creations that overlap. What the system answers (the
-- clock, files, links, hooks, random numbers, the bytes of a connection) is an argument; a failure
-- is an answer like another. Where a loop walks a map, its order is that of a list, and is
-- arbitrary.
--
-- Loops. Every loop is recursion on a list, a text or a number, but for those that read records or
-- parameters: their fuel is the number of bytes that there are, or one more, and each round takes a
-- byte at least. Numbers are natural numbers or integers; the fields of a record are cut to their
-- widths where the code cuts them, and the other counts, ports and times are far below 2^53 and
-- 2^62.
--
-- What is not modelled. The browser, React, the network, JSON texts, dates and locale-dependent
-- formatting are outside the repository: a date or a formatted text is a parameter. So are the
-- answers of the system to the server: a missing directory, or a listener that fails. `toLowerCase`
-- is a parameter, since its tables are not part of the repository. Styling that does not depend on
-- data is left out. Regular expressions, filepath.Match, and the parsing of queries and addresses
-- are parameters too. Of the Go code, process control, the proxy, TLS, runtimes and diagnostics are
-- not modelled; nor are the files that keep releases between runs of the gateway, the streaming
-- reader of FastCGI responses, the guard in front of the management routes and the calls of the
-- operating system.
pub mod Prelude
pub mod Dashboard
pub mod Server
pub mod Gateway
pub mod Witnesses
