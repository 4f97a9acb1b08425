-- ===== src/Lib.antt =====
-- Agentic Hive is a server from whose pages users run terminal sessions on their own hosts over SSH.
-- This library models the parts of it that decide who may do what and what is remembered, and proves
-- what they promise.
--
-- The parts, each with its file here and its code:
--
-- - Store (internal/store): the tables `users`, `servers`, `ssh_keys`, `host_keys`,
--   `session_templates`, `settings` and `audit_log` as one record `Store` of lists, and a function for
--   each operation: Store/Users, Store/Servers, Store/HostKeys, Store/Settings, Store/Templates and
--   Store/Audit. A statement may fail in the SQLite engine; which ones do is the argument `Engine`.
--   Store/Migrations is `Open` with `migrate` and the files of internal/store/migrations.
--   Go's CreateServer is `create_server`, DeleteServer and DeleteUser are `delete_server_by_id` and
--   `delete_user_by_id`, DeleteSetting is `remove_setting`, and DeleteHostKey is `clear_host_key`.
-- - Http, Http/ClientIp: requests and responses as values; Http/ClientIp has the two functions `clientIP`
--   (internal/server/clientip.go, internal/terminal/bridge.go) and `extractIP`.
-- - RateLimit (internal/auth/ratelimit.go): `check` is the part of the middleware before the handler
--   that it wraps, `settle` the part behind it, `serve` a whole request, and `cleanup` one tick of the
--   clean-up. RateLimit/Overlapping is the limiter under requests that overlap: `Step` is what one of
--   them, or the clean-up, does next. Times are nanoseconds.
-- - Auth (internal/auth): Auth/Cookies, Auth/Csrf, Auth/Tokens and Auth/Guards are the parts of
--   auth.go, Auth/Local is local.go with `Logout`, and Auth/Oidc is oidc.go with swappable.go.
-- - Config (internal/config/config.go): `load` is Load, `resolve_settings` what the settings page shows,
--   and `apply_db_settings` ApplyDBSettings.
-- - Session (internal/session/manager.go): the names of sessions and the command lines of
--   CreateSession and KillSession; Session/Listing reads the answer of tmux, and Session/Manager has
--   the cache, the operations on the hosts and a round of polling. Session/Manager/Interval is the
--   channel between UpdateInterval and the goroutine of StartPolling, as steps, for calls that do not
--   overlap.
-- - Keystore (internal/keystore): the local store and the one in Vault as the two constructors of
--   `KeyStore`; to swap the key store is to pass another value.
-- - Pool (internal/sshpool/pool.go): the clients and the gauge of active connections; `install`,
--   `forget` and `reinstall` are its critical sections, and `exec` is `Exec` where no other goroutine
--   comes in between. Pool/Interleaving has the calls of several goroutines, as steps.
-- - Server (internal/server): `World` is the server with its parts. Server/Servers, Server/Sessions,
--   Server/Admin, Server/Settings and Server/AuditLog have a function for each handler (`handle_me` is
--   handleMe), Server/Routes has the routes with their middleware, Server/Middleware the layers around
--   the mux (`handle` is Handler), and Server/Startup is `main` (cmd/server/main.go) up to the point
--   where the process serves.
-- - Terminal (internal/terminal/bridge.go): the check of the origin, the handler up to the start of
--   the command, the idle watcher, and the loop over the messages of the browser. Terminal/Routing is
--   its route (internal/server/server.go). Terminal/Ending is the rest of the handler, from its
--   `select` on, with its goroutines and its deferred calls, as steps.
-- - Backup (internal/backup/backup.go): `run` is Run, `run_backup` the command of cmd/server/main.go and
--   `handle_backup` handleBackup, over a file system from paths to contents.
--
-- A request goes through the CSRF check, the guard of its route and its handler. The handlers of
-- Server and Terminal ask Store who may see a server, and reach hosts through Session and Pool; a
-- change of the settings swaps the OIDC handler and the key store. The handlers of Auth read and
-- write the tables of Store and log to its audit log; the pool reads servers and host keys from Store
-- and private keys from Keystore, which keeps them in Store or in Vault; the limiter stands before the
-- login, and RateLimit/History is what is asked of it. Store/Keeping, Keystore/Keeping and
-- Pool/Keeping follow what an operation for one server leaves to the others.
--
-- What is not under the repository is an argument: the engine, the process environment, the JWT
-- library (with its documented behaviour as the hypothesis `IsFaithful`), bcrypt, the OIDC provider,
-- the AEAD cipher (with the hypothesis `IsAuthentic`), Vault, the SSH library, the remote hosts, the
-- mux and the JSON decoder of the HTTP library, the file system, SQLite's copy of a database, the clock
-- and the random bytes.
--
-- The loops run over lists, but for two: `watch` in Terminal counts ticks, and as many as there are
-- nanoseconds up to the end of the timeout are enough; `format_number` in Text/Numbers divides by ten
-- at most twenty times, and a number below 2 ^ 63 has nineteen digits.
--
-- Goroutines that run side by side are step relations. Prelude/Steps has what it means that a state
-- comes whatever step is taken; the scheduler is only asked to let a goroutine that can go on do so.
-- When a pump of a terminal ends, and when `Wait` returns, is up to the browser and the host.
--
-- Not modelled: the registration of metrics, static files, the durations and the log lines of the
-- outer middleware, the bytes that the pumps of a terminal copy, signals and the order of the
-- shutdown, the test helpers, and the web client; these are calls of libraries and of the operating
-- system. The window of the limiter is at least a second, and below 2 ^ 63 nanoseconds. Of a table
-- the migrations keep the columns. A path in a backup has no quote, backslash or unprintable
-- character. The times that SQLite keeps are seconds.
pub mod Auth
pub mod Backup
pub mod Config
pub mod Http
pub mod Keystore
pub mod Pool
pub mod Prelude
pub mod RateLimit
pub mod Server
pub mod Session
pub mod Store
pub mod Terminal
pub mod Text
