-- ===== src/DaemonConnection/Laws.antt =====
-- src/local-runtime/daemon-connection.ts: what holds of the connection after any events.
use openma_common.Common.{
  ℕ, ◌≤◌, Bool, true, false, not, Option, none, some, List, [], ◌∷◌, ◌≡◌, refl, ◌⊎◌, inl, inr,
  arith, All, Bool-cases,
}
use openma_common.DaemonConnection.{
  DaemonConnectionState, connecting, online, occupied, expired, stopped, DaemonConnection, Message,
  pong, welcome, ordinary, invalid, new, is_socket, is_some, is_current, told, close_socket, finish,
  stop, notify, retry, attach, start, drop, reconnects, beats, opens_socket, receive, receives,
  refused, unexpected_response, send,
}

-- What happens to a connection: its methods, the callbacks of a socket, and the timers.
pub data Event : Type 0 where
  starts : Bool → ℕ → Event
  stops : Event
  sends : ℕ → Bool → Bool → Event
  timer_fires : Bool → ℕ → Event
  heart_beats : ℕ → ℕ → Bool → Event
  socket_opens : ℕ → ℕ → Bool → Event
  message_comes : ℕ → Message → ℕ → Event
  response_comes : ℕ → ℕ → Event
  socket_drops : ℕ → Event

abbrev delay_of : Option ℕ → ℕ
delay_of none = 1000
delay_of (some d) = d

-- A delay within its bounds.
abbrev Within : ℕ → Type 0
Within d = (1000 ≤ d) × (d ≤ 60000)

-- A stopped connection has no socket and no timer; any other has exactly one of a socket and a timer
-- that opens the next one. A heartbeat runs exactly while there is a socket.
abbrev pub Inv : DaemonConnection → Type 0
Inv c =
    (Within c.backoff_ms × Within (delay_of c.reconnect))
    × ((c.heartbeat ≡ is_some c.socket)
        × (((c.is_stopped ≡ true) × ((c.socket ≡ none) × (c.reconnect ≡ none)))
            ⊎ ((c.is_stopped ≡ false) × (is_some c.socket ≡ not (is_some c.reconnect)))))

-- A connection between two sockets.
abbrev Bare : DaemonConnection → Type 0
Bare c =
    Within c.backoff_ms
    × ((c.heartbeat ≡ false)
        × ((c.socket ≡ none) × ((c.reconnect ≡ none) × (c.is_stopped ≡ false))))

-- An event other than a start.
abbrev pub IsNoStart : Event → Type 0
IsNoStart (starts opens now) = ⊥
IsNoStart _ = Unit {0}

module _ (cancels : List DaemonConnectionState → DaemonConnectionState → Bool) where
  unfoldable pub step : DaemonConnection → Event → DaemonConnection
  step c (starts opens now) = start cancels c opens now
  step c stops = stop c
  step c (sends k is_open returns) = (send cancels c k is_open returns).0
  step c (timer_fires opens now) = reconnects cancels c opens now
  step c (heart_beats k now ping_fails) = beats cancels c k now ping_fails
  step c (socket_opens k now greets) = opens_socket cancels c k now greets
  step c (message_comes k message now) = receives cancels c k message now
  step c (response_comes k status) = unexpected_response cancels c k status
  step c (socket_drops k) = drop cancels c k

  unfoldable pub run : DaemonConnection → List Event → DaemonConnection
  run c [] = c
  run c (e ∷ es) = run (step c e) es

  finish-Inv : (c : DaemonConnection) (s : DaemonConnectionState) → Inv c → Inv (finish c s)
  unfolding finish told close_socket is_some
  finish-Inv c s h = ground (arith, h)

  notify-Inv : (c : DaemonConnection) (s : DaemonConnectionState) → Inv c → Inv (notify cancels c s)
  unfolding notify stop finish told close_socket is_some
  notify-Inv c s h = ground (arith, h)

  retry-Inv : (c : DaemonConnection) → Bare c → Inv (retry cancels c)
  unfolding retry notify stop finish told close_socket is_some
  retry-Inv c h = ground (arith, h)

  notify-Bare :
      (c : DaemonConnection) (s : DaemonConnectionState)
      → Bare c
      → (Inv (notify cancels c s) × ((notify cancels c s).is_stopped ≡ true))
        ⊎ Bare (notify cancels c s)
  unfolding notify stop finish told close_socket is_some
  notify-Bare c s h = ground (arith, h)

  attach-Inv :
      (c : DaemonConnection) (opens : Bool) (now : ℕ) → Bare c → Inv (attach cancels c opens now)
  unfolding attach is_some
  attach-Inv c opens now h =
      ground (arith, h, notify-Bare c connecting h, retry-Inv (notify cancels c connecting))

  start-Inv :
      (c : DaemonConnection) (opens : Bool) (now : ℕ) → Inv c → Inv (start cancels c opens now)
  unfolding start is_some
  start-Inv c opens now h = elim (Bool-cases c.is_stopped) [
    | inl rests ↦
        rw (rests, start)
          (attach-Inv (record c { is_stopped = false; backoff_ms = 1000 }) opens now
            (ground (arith, h)))
    | inr works ↦ rw (works, start) (rw works at h)
  ]

  drop-Inv : (c : DaemonConnection) (k : ℕ) → Inv c → Inv (drop cancels c k)
  unfolding drop is_current is_socket close_socket is_some
  drop-Inv c k h = elim (Bool-cases (is_current c k)) [
    | inl current ↦ rw (current, drop) (retry-Inv (close_socket c) (ground (arith, h, current)))
    | inr stale ↦ rw (stale, drop) h
  ]

  beats-Inv :
      (c : DaemonConnection) (k now : ℕ) (ping_fails : Bool)
      → Inv c
      → Inv (beats cancels c k now ping_fails)
  unfolding beats
  beats-Inv c k now ping_fails h = ground (arith, h, drop-Inv c k h)

  opens_socket-Inv :
      (c : DaemonConnection) (k now : ℕ) (greets : Bool)
      → Inv c
      → Inv (opens_socket cancels c k now greets)
  unfolding opens_socket
  opens_socket-Inv c k now greets h =
      ground (arith, h, drop-Inv (record c { last_pong_at = now }) k h)

  receives-Inv :
      (c : DaemonConnection) (k : ℕ) (message : Message) (now : ℕ)
      → Inv c
      → Inv (receives cancels c k message now)
  unfolding receives receive
  receives-Inv c k pong now h = ground (arith, h)
  receives-Inv c k welcome now h =
      ground (arith, h, notify-Inv (record c { backoff_ms = 1000 }) online (ground (arith, h)))
  receives-Inv c k ordinary now h = ground (arith, h)
  receives-Inv c k invalid now h = ground (arith, h)

  unexpected_response-Inv :
      (c : DaemonConnection) (k status : ℕ) → Inv c → Inv (unexpected_response cancels c k status)
  unfolding unexpected_response refused
  unexpected_response-Inv c k status h =
      ground (arith, h, drop-Inv c k h, finish-Inv c occupied h, finish-Inv c expired h)

  send-Inv :
      (c : DaemonConnection) (k : ℕ) (is_open returns : Bool)
      → Inv c
      → Inv (send cancels c k is_open returns).0
  unfolding send
  send-Inv c k is_open returns h = ground (arith, h, drop-Inv c k h)

  reconnects-Inv :
      (c : DaemonConnection) (opens : Bool) (now : ℕ) → Inv c → Inv (reconnects cancels c opens now)
  unfolding reconnects is_some
  reconnects-Inv c opens now h = elim (Bool-cases (is_some c.reconnect)) [
    | inl waits ↦
        rw (waits, reconnects)
          (attach-Inv (record c { reconnect = none }) opens now (ground (arith, h, waits)))
    | inr idle ↦ rw (idle, reconnects) h
  ]

  step-Inv : (c : DaemonConnection) (e : Event) → Inv c → Inv (step c e)
  unfolding step stop
  step-Inv c (starts opens now) h = start-Inv c opens now h
  step-Inv c stops h = finish-Inv c stopped h
  step-Inv c (sends k is_open returns) h = send-Inv c k is_open returns h
  step-Inv c (timer_fires opens now) h = reconnects-Inv c opens now h
  step-Inv c (heart_beats k now ping_fails) h = beats-Inv c k now ping_fails h
  step-Inv c (socket_opens k now greets) h = opens_socket-Inv c k now greets h
  step-Inv c (message_comes k message now) h = receives-Inv c k message now h
  step-Inv c (response_comes k status) h = unexpected_response-Inv c k status h
  step-Inv c (socket_drops k) h = drop-Inv c k h

  run-Inv : (c : DaemonConnection) (es : List Event) → Inv c → Inv (run c es)
  unfolding run
  run-Inv c [] h = h
  run-Inv c (e ∷ es) h = run-Inv (step c e) es (step-Inv c e h)

  -- After any events on a new connection, and whichever state notifications the host answers by
  -- stopping it, a stopped connection has no socket and no timer, and any other has exactly one of
  -- a socket and a reconnect timer; a heartbeat runs exactly while there is a socket; and the back-
  -- off and the delay of the timer lie between 1000 and 60000 milliseconds.
  pub connection-Inv : (es : List Event) → Inv (run new es)
  unfolding new is_some
  connection-Inv es = run-Inv new es (ground arith)

  step-stopped :
      (c : DaemonConnection) (e : Event)
      → (c.is_stopped ≡ true) × (c.reconnect ≡ none)
      → IsNoStart e
      → step c e ≡ c
  unfolding step stop finish send beats opens_socket receives unexpected_response drop is_current
      reconnects is_some
  step-stopped c (starts opens now) h n = elim n [ ]
  step-stopped c stops h n = rw h.0 refl
  step-stopped c (sends k is_open returns) h n = rw h.0 refl
  step-stopped c (timer_fires opens now) h n = rw h.1 refl
  step-stopped c (heart_beats k now ping_fails) h n = rw h.0 refl
  step-stopped c (socket_opens k now greets) h n = rw h.0 refl
  step-stopped c (message_comes k message now) h n = rw h.0 refl
  step-stopped c (response_comes k status) h n = rw h.0 refl
  step-stopped c (socket_drops k) h n = rw h.0 refl

  run-stopped :
      (c : DaemonConnection) (es : List Event)
      → (c.is_stopped ≡ true) × (c.reconnect ≡ none)
      → All IsNoStart es
      → run c es ≡ c
  unfolding run
  run-stopped c [] h n = refl
  run-stopped c (e ∷ es) h n = rw (step-stopped c e h n.0) (run-stopped c es h n.1)

  stop-stopped :
      (c : DaemonConnection) → Inv c → ((stop c).is_stopped ≡ true) × ((stop c).reconnect ≡ none)
  unfolding stop finish told close_socket is_some
  stop-stopped c h = ground (arith, h)

  -- Once a connection is stopped after any events, it is not changed by any further calls, socket
  -- callbacks and timers but a start.
  stop_final :
      (es ds : List Event) → All IsNoStart ds → run (stop (run new es)) ds ≡ stop (run new es)
  stop_final es ds n =
      run-stopped (stop (run new es)) ds (stop-stopped (run new es) (connection-Inv es)) n
