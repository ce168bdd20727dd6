-- ===== src/DaemonConnection/Tests.antt =====
-- A connection that is refused once, is welcomed on its second socket, and is stopped.
use openma_common.Common.{Bool, true, false, some, List, [], ◌∷◌, ◌≡◌, refl}
use openma_common.DaemonConnection.{
  DaemonConnectionState, welcome, new, receives, drop, reconnects, unexpected_response, start,
}
use openma_common.DaemonConnection.Laws.{
  Event, starts, timer_fires, message_comes, response_comes, socket_drops, step, run, Inv,
  connection-Inv,
}

abbrev never : List DaemonConnectionState → DaemonConnectionState → Bool
never states state = false

abbrev second_try : List Event
second_try =
    starts true 0
    ∷ response_comes 0 500
    ∷ timer_fires true 1000
    ∷ socket_drops 0
    ∷ message_comes 1 welcome 1500
    ∷ []

connection-Inv_example : Inv (run never new second_try)
connection-Inv_example = connection-Inv never second_try

abbrev late : List Event
late = message_comes 1 welcome 2000 ∷ timer_fires true 3000 ∷ []

second_socket : (run never new second_try).socket ≡ some 1
unfolding run new step receives drop reconnects unexpected_response start
second_socket = refl
