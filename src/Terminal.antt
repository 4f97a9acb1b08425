-- ===== src/Terminal.antt =====
-- internal/terminal/bridge.go: a terminal in the browser on a session of a remote host. Sockets,
-- pipes and goroutines are not here; the decisions of the handler, of its idle watcher and of its
-- loop over the messages are. Times are nanoseconds.
pub mod Idle
pub mod Origins
pub mod Ending
pub mod Routing
mod Tests
use Prim.Native.String.{◌++◌}
use text.Mathlib.Text.{◌==◌}
use agentic_hive.Prelude.{
  ℕ, zero, suc, ◌+◌, ◌-◌, ◌*◌, ◌/◌, ◌%◌, ◌^◌, Bool, true, false, not, ◌&&◌, String, List, [], ◌∷◌,
  Option, none, some, ltb, leb, if◌then◌else◌, Result, ok, err,
}
use agentic_hive.Text.{Text, codes, has_suffix}
use agentic_hive.Text.Numbers.{ℤ, pos, negsuc, parse_int}
use agentic_hive.Http.{Request, header, param}
use agentic_hive.Store.{Server, Store, StoreError}
use agentic_hive.Store.Servers.{get_server}
use agentic_hive.Pool.{Pool, Attempt, session}
use agentic_hive.Session.{is_safe_name}
use agentic_hive.Auth.Tokens.{Claims}
use agentic_hive.Server.{World, ServerEnv, owner_of, pool_env, with_store, q, audit}

-- `CheckOrigin`; `host` is the host that the request names.
unfoldable pub check_origin : (host : String) → Request → Bool
check_origin host r =
    if header r "Origin" == ""
    then true
    else has_suffix (codes ("://" ++ host)) (codes (header r "Origin"))

-- What the library and the remote host do: the upgrade, the connection, the terminal, its two pipes,
-- and the command.
pub record Peer : Type 0 where
  pub upgrades : Bool
  pub attempt : Attempt
  pub gives_session : ℕ → Bool
  pub gives_terminal : (rows cols : ℤ) → Bool
  pub gives_pipes : Bool
  pub starts : Text → Bool

-- How the handler ends, or the terminal that it runs on a client.
pub data Opening : Type 0 where
  rejected : ℕ → String → Opening
  not_upgraded no_session no_terminal no_pipes not_started : Opening
  running : (client : ℕ) → (rows cols : ℤ) → Opening

-- The number beside the error of `Atoi`, with its default for zero.
abbrev pub or_size : ℤ → ℤ → ℤ
or_size default (pos zero) = default
or_size default n = n

abbrev pub size : ℤ → String → ℤ
size default v = or_size default (parse_int (codes v)).0

abbrev pub terminal_command : String → Text
terminal_command name = codes ("tmux new -A -s " ++ name)

module _ (env : ServerEnv) (r : Request) (user : Option Claims) where
  abbrev terminal_details : (server_id name : String) → String
  terminal_details server_id name =
      "{\"server_id\":" ++ (q env server_id ++ (",\"session\":" ++ (q env name ++ "}")))

  -- The entries of the start and of the end, which differ in their action.
  abbrev pub audit_terminal : (action server_id name : String) → Store → Store
  audit_terminal action server_id name =
      audit env r user action "session" name (terminal_details server_id name)

  -- The end of the handler behind the upgrade.
  unfoldable pub end_terminal : (server_id name : String) → World → World
  end_terminal server_id name w =
      with_store env w (audit_terminal "terminal.disconnect" server_id name w.store)

  abbrev ended : Opening → (server_id name : String) → World → Opening × World
  ended how server_id name w = (how, end_terminal server_id name w)

  on_client : Peer → (server_id name : String) → Option ℕ → World → Opening × World
  unfolding end_terminal
  on_client peer server_id name none w = ended no_session server_id name w
  on_client peer server_id name (some c) w =
      let cols = size (pos 80) (param r "cols") in
      let rows = size (pos 24) (param r "rows") in
      if not (peer.gives_terminal rows cols)
      then ended no_terminal server_id name w
      else if not peer.gives_pipes
      then ended no_pipes server_id name w
      else if not (peer.starts (terminal_command name))
      then ended not_started server_id name w
      else (running c rows cols, w)

  upgraded : Peer → (server_id name : String) → World → Opening × World
  unfolding on_client
  upgraded peer server_id name w =
      let s = audit_terminal "terminal.connect" server_id name w.store in
      let (c, p, s') =
        session (pool_env env w) peer.gives_session server_id peer.attempt w.pool s in
      on_client peer server_id name c (record w { pool = p; store = s' })

  owned : Peer → (server_id name : String) → Result StoreError Server → World → Opening × World
  unfolding upgraded
  owned peer server_id name (err e) w = (rejected 404 "server not found", w)
  owned peer server_id name (ok srv) w =
      if peer.upgrades then upgraded peer server_id name w else (not_upgraded, w)

  -- `HandleTerminal` up to the start of the command. The upgrade checks the origin.
  unfoldable pub handle_terminal : Peer → (server_id name : String) → World → Opening × World
  unfolding owned
  handle_terminal peer server_id name w =
      if not (is_safe_name (codes name))
      then (rejected 400 "invalid session name", w)
      else owned peer server_id name (get_server env.auth.db server_id (owner_of user) w.store) w

abbrev second : ℕ
second = 1000000000

-- The watcher looks ten times in a timeout, and once in a second at most.
unfoldable pub tick_interval : (timeout : ℕ) → ℕ
tick_interval timeout = if ltb (timeout / 10) second then second else timeout / 10

-- The watcher for a number of ticks, after a tick at `prev`: when it closes the connection.
-- `last_activity` gives the time that is stored when the watcher reads it.
unfoldable pub watch : (timeout : ℕ) → (last_activity : ℕ → ℕ) → (ticks prev : ℕ) → Option ℕ
unfolding tick_interval
watch timeout last_activity zero prev = none
watch timeout last_activity (suc ticks) prev =
    let now = prev + tick_interval timeout in
    let rest = watch timeout last_activity ticks now in
    if leb timeout (now - last_activity now) then some now else rest

-- A message of the browser: input, or a text that is a `resizeMsg` or no JSON.
pub data Message : Type 0 where
  input : List ℕ → Message
  resize : (type : String) → (cols rows : ℤ) → Message
  no_json : Message

pub record Shell : Type 0 where
  pub typed : List (List ℕ)
  pub rows : ℤ
  pub cols : ℤ
  pub last_activity : ℕ

abbrev pub is_positive : ℤ → Bool
is_positive (pos (suc n)) = true
is_positive n = false

-- One turn of the loop over the messages, where writing to the shell does not fail.
unfoldable pub receive : (now : ℕ) → Message → Shell → Shell
receive now (input bytes) t = record t { typed = bytes ∷ t.typed; last_activity = now }
receive now no_json t = t
receive now (resize type cols rows) t =
    if type == "resize" && is_positive cols && is_positive rows
    then record t { rows = rows; cols = cols }
    else t
