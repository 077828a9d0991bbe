-- ===== src/Lib.antt =====
-- agent-web-mvp: the server between browsers and coding agents that run on the users' machines.
--
-- A browser talks to the server over one WebSocket, a local daemon over another. The server keeps the
-- sessions: each has a queue of prompts, a history, and a runner that executes one prompt at a time.
-- For a signed-in user the runner (server/agents/remote.ts) hands the prompt to a daemon that the
-- registry (server/devices.ts) knows, and turns what the daemon sends back into callbacks of the
-- session (server/sessions.ts). A daemon gets its bearer token by pairing (server/pairing.ts), from
-- tables of the database (server/db.ts).
--
-- Prelude        shared names; lists, options and texts; JavaScript's Map (Prelude.JsMap)
-- Types          shared/types.ts: the messages and their records; Types.Models, the allowlists;
--                Types.AuthDetect, detectAuthRequired
-- Types.Schemas  shared/types.ts: the zod schemas of what a daemon sends, and their JSON
-- Wire           the sockets of package `ws` as the server uses them: server/index.ts, send
-- Devices        server/devices.ts: class DeviceRegistry, a function for each method
-- Agents         server/agents/base.ts; Agents.Remote, server/agents/remote.ts: class RemoteRunner;
--                Agents.Remote.Events, the messages of the daemon on their way to the session
-- Agents.Claude  server/agents/claude.ts: class ClaudeRunner; Agents.Claude.Bridge,
--                client-go/helpers/claude-bridge.mjs, the process by which a daemon runs a prompt;
--                Agents.Codex, server/agents/codex.ts: class CodexRunner
-- Session        server/sessions.ts: class Session. Session.State has the fields and small methods,
--                Session.Steps the callbacks, Session.Operations the methods that the server calls,
--                Session.History all of them as one step relation
-- Db             server/db.ts: the prepared statements, on tables that are lists of rows
-- Pairing        server/pairing.ts: the handlers, and verifyDeviceToken
-- RateLimit      server/index.ts: TokenBucket and checkPromptRate
-- Hub            server/index.ts: the browsers' sockets, and what is forwarded between them and the
--                daemons. Hub.Listings has list_dir and its answers, Hub.Codex the enabling of codex,
--                Hub.Events the events of this part as one step relation
-- Auth           server/auth.ts: the sign-in with GitHub; Auth.States, how long its states live;
--                Auth.Cookies, the cookie and the user of a request
-- Db.Identity    server/db.ts: the statements on users and browser_sessions
-- Db.Sessions    server/db.ts: the statements on agent_sessions and agent_messages
-- Session.Store  server/sessions.ts: class SessionStore
-- Connection     server/index.ts: a daemon's connection on /client, from its opening to its close
-- Entry          server/index.ts: the upgrade of sockets, the origins, and the check at the start
-- Server         server/index.ts: the callbacks of the store; Server.Messages, handleClientMessage;
--                Server.Opening, a browser's connection up to its first message; Server.System, the
--                server as a whole as one step relation; Connection.Attached, a daemon's connection in
--                it
-- Web            web/src/App.tsx: the state of the main view and its message handler; Web.Socket,
--                web/src/ws.ts: class WSClient; Web.Dialog, web/src/components/NewSessionDialog.tsx, as
--                a state that each event changes, with the effects that follow it; Web.Picker,
--                web/src/components/DirectoryPicker.tsx
--
-- State is passed explicitly. What a session does to the outside (callbacks, database writes, the
-- resolution of promises) is kept in order in its field `effects`. A runner's `send` either starts a
-- run, whose events come later as steps of their own, or it reports an error and the end of the run
-- before it returns, as RemoteRunner does when no daemon is there. The clock and randomUUID are
-- parameters: a step has its time, and the n-th value of randomUUID is a function of n.
--
-- drainQueue calls itself by way of the callbacks of a runner that refuses. The model has fuel: one
-- more than the number of prompts queued and the one recovery that is left. It is enough, since the
-- model satisfies the equation of the code (Session.Drain).
--
-- The rate limiter's fractions are scaled to whole numbers, and JavaScript's rounding of them is left
-- out; where the clock goes backwards the model refills nothing. A JavaScript text is a sequence of
-- code points here. better-sqlite3, express, ws and node:crypto are not in the repository: statements
-- are functions on rows, answers are values, random values and digests are parameters.
--
-- The registry that a session's runner sees is a parameter of its runner (Agents.Remote), and what the
-- runner sends is kept in its own state; the handlers of Hub and Server have the registry in theirs.
-- A browser's message has the type that its sender promises: handleClientMessage does not check it.
-- What listLocalDir finds in the server's file system is a parameter.
--
-- The package zod is a parameter: its checks of one value, each with the law that its documentation
-- states; Types.Schemas.Checks has functions that fulfil them. JSON.parse and decodeURIComponent are
-- parameters too. What the agent SDK does in a run is a list of what it yields and asks, with its end;
-- the process of codex is a list of what it writes, with the way in which it closes. What a daemon's
-- connection lets through to the sessions is kept in its field `dispatched`; Connection.Attached
-- delivers it to the sessions of the store. What a session that was deleted still hears is not part of
-- Server.System (see Agents.Remote.Deletion). Meta is kept in the database as its JSON, by JSON.stringify
-- and JSON.parse, which are parameters.
--
-- A view of the web client is the state that React keeps for it: a step is one event or one message, and
-- the effects that follow it are run at once. What the form of a dialog hides can be changed in the
-- model as well.
--
-- Not modelled: the express wiring, the limiters of its routes and the install scripts' handler
-- (server/index.ts), the migrations of the database (server/db.ts), the markup and the other
-- components of the web client; the daemon (client-go, except its bridge) is a program of its own in Go.
pub mod Prelude
pub mod Types
pub mod Wire
pub mod Devices
pub mod Agents
pub mod Session
pub mod Db
pub mod Pairing
pub mod RateLimit
pub mod Hub
pub mod Connection
pub mod Entry
pub mod Server
pub mod Web
pub mod Auth
