-- ===== src/DaemonConnection.antt =====
-- src/local-runtime/daemon-connection.ts: the connection of a daemon host, as a state machine. A socket
-- is named by how many were opened before it. The host answers a state notification by stopping the
-- connection or not, which is a parameter; it does not start it from there. What the sockets send, and
-- the payloads that `onMessage` is given, are not kept.
mod Laws
mod Tests
use openma_common.Common.{
  ℕ, suc, ◌+◌, ◌-◌, ◌*◌, Bool, true, false, ◌||◌, not, Option, none, some, List, [], ◌∷◌, ◌++◌, min,
  max, ite, if◌then◌else◌, leb, ◌==◌,
}

pub data DaemonConnectionState : Type 0 where
  connecting online offline occupied expired stopped : DaemonConnectionState

pub record DaemonConnection : Type 0 where
  pub socket : Option ℕ
  pub is_stopped : Bool
  pub backoff_ms : ℕ
  pub heartbeat : Bool
  pub reconnect : Option ℕ  -- the delay of the timer
  pub last_pong_at : ℕ  -- of the socket
  pub opened : ℕ
  pub states : List DaemonConnectionState

-- A message that a socket receives, by its type; a text that is no JSON object has no kind.
pub data Message : Type 0 where
  pong welcome ordinary invalid : Message

pub new : DaemonConnection
new = record {
  socket = none;
  is_stopped = true;
  backoff_ms = 1000;
  heartbeat = false;
  reconnect = none;
  last_pong_at = 0;
  opened = 0;
  states = [];
}

pub is_socket : Option ℕ → ℕ → Bool
is_socket none k = false
is_socket (some j) k = j == k

pub is_some : Option ℕ → Bool
is_some none = false
is_some (some n) = true

-- !this.#stopped && this.#socket === socket
pub is_current : DaemonConnection → ℕ → Bool
unfolding is_socket
is_current c k = if c.is_stopped then false else is_socket c.socket k

pub told : DaemonConnection → DaemonConnectionState → DaemonConnection
told c state = record c { states = c.states ++ state ∷ [] }

pub close_socket : DaemonConnection → DaemonConnection
close_socket c = record c { heartbeat = false; socket = none }

pub finish : DaemonConnection → DaemonConnectionState → DaemonConnection
unfolding told close_socket
finish c state =
    if c.is_stopped
    then c
    else told (close_socket (record c { is_stopped = true; reconnect = none })) state

pub stop : DaemonConnection → DaemonConnection
unfolding finish
stop c = finish c stopped

-- `cancels` says whether the host stops the connection when it is told of a state.
module _ (cancels : List DaemonConnectionState → DaemonConnectionState → Bool) where
  pub notify : DaemonConnection → DaemonConnectionState → DaemonConnection
  unfolding told stop
  notify c state = if cancels c.states state then stop (told c state) else told c state

  pub retry : DaemonConnection → DaemonConnection
  unfolding notify is_some
  retry c =
      let c' = notify c offline in
      if c.is_stopped
      then c
      else if is_some c.reconnect
      then c
      else if c'.is_stopped
      then c'
      else record c' { backoff_ms = min (c'.backoff_ms * 2) 60000; reconnect = some c'.backoff_ms }

  -- `opens` says whether `openSocket` returns; `now` is the time.
  pub attach : DaemonConnection → Bool → ℕ → DaemonConnection
  unfolding notify retry
  attach c opens now =
      let c' = notify c connecting in
      if c.is_stopped
      then c
      else if c'.is_stopped
      then c'
      else if not opens
      then retry c'
      else record c' {
        socket = some c'.opened;
        opened = suc c'.opened;
        last_pong_at = now;
        heartbeat = true;
      }

  pub start : DaemonConnection → Bool → ℕ → DaemonConnection
  unfolding attach
  start c opens now =
      if c.is_stopped
      then attach (record c { is_stopped = false; backoff_ms = 1000 }) opens now
      else c

  pub drop : DaemonConnection → ℕ → DaemonConnection
  unfolding is_current close_socket retry
  drop c k = if is_current c k then retry (close_socket c) else c

  -- The timer of `#retry` fires.
  pub reconnects : DaemonConnection → Bool → ℕ → DaemonConnection
  unfolding attach
  reconnects c opens now =
      if is_some c.reconnect then attach (record c { reconnect = none }) opens now else c

  -- The timer of a socket's heartbeat fires; a ping that cannot be sent drops the socket.
  pub beats : DaemonConnection → ℕ → ℕ → Bool → DaemonConnection
  unfolding is_current drop
  beats c k now ping_fails =
      if is_current c k
      then (if leb 75000 (now - c.last_pong_at)
          then drop c k
          else if ping_fails
          then drop c k
          else c)
      else c

  -- A socket opens; `greets` says whether `onOpen` succeeds.
  pub opens_socket : DaemonConnection → ℕ → ℕ → Bool → DaemonConnection
  unfolding is_current drop
  opens_socket c k now greets =
      let c' = record c { last_pong_at = now } in
      if is_current c k then (if greets then c' else drop c' k) else c

  pub receive : DaemonConnection → Message → ℕ → DaemonConnection
  unfolding notify
  receive c pong now = record c { last_pong_at = max c.last_pong_at now }
  receive c welcome now = notify (record c { backoff_ms = 1000 }) online
  receive c ordinary now = c
  receive c invalid now = c

  pub receives : DaemonConnection → ℕ → Message → ℕ → DaemonConnection
  unfolding is_current receive
  receives c k message now = if is_current c k then receive c message now else c

  -- 409, then 401, 403 and 404, then any other status.
  refused : DaemonConnection → ℕ → ℕ → DaemonConnection
  unfolding finish drop
  refused c k status =
      if status == 409
      then finish c occupied
      else if (status == 401) || ((status == 403) || (status == 404))
      then finish c expired
      else drop c k

  pub unexpected_response : DaemonConnection → ℕ → ℕ → DaemonConnection
  unfolding is_current refused
  unexpected_response c k status = if is_current c k then refused c k status else c

  -- A send on a socket: it is not tried unless the socket is the current one and `is_open`.
  pub send : DaemonConnection → ℕ → Bool → Bool → DaemonConnection × Bool
  unfolding is_current drop
  send c k is_open returns =
      if is_current c k
      then (if is_open then (if returns then (c, true) else (drop c k, false)) else (c, false))
      else (c, false)
