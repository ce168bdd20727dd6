-- ===== src/DaemonHost/Tests.antt =====
-- src/local-runtime/daemon-host.ts: a stop whose drain fails, and one that is forced while it drains.
use openma_common.Common.{◌≤◌, true, false, none, some, List, [], ◌∷◌, ◌++◌, ◌≡◌, refl, inr}
use openma_common.DaemonHost.{
  rejected, aggregate, HostEvent, start_called, stop_host, drain_failed, disposal_failed,
  connection_start, connection_stop, sessions_drain, sessions_dispose_all, create_daemon_host, run,
}
use openma_common.DaemonHost.Laws.{is_there}
use openma_common.DaemonHost.Stopping.{stop_settles, drain_end, disposal_end}
use openma_common.DaemonHost.Calls.{settled_once, called_once, times_called}

abbrev escalated : List HostEvent
escalated = start_called ∷ stop_host false ∷ stop_host true ∷ []

escalated_calls :
    (run none escalated create_daemon_host).1
    ≡ connection_start ∷ sessions_drain ∷ connection_stop ∷ sessions_dispose_all ∷ []
unfolding run create_daemon_host
escalated_calls = refl

abbrev broken_twice : List HostEvent
broken_twice =
    start_called ∷ stop_host false ∷ drain_failed "drain" ∷ disposal_failed "cleanup" ∷ []

broken_twice_rejected :
    (run none broken_twice create_daemon_host).0.settled
    ≡ some (rejected (aggregate "drain" "cleanup"))
unfolding run create_daemon_host
broken_twice_rejected = refl

escalated_called : (run none escalated create_daemon_host).0.stop_called ≡ true
unfolding run create_daemon_host
escalated_called = refl

broken_twice_settled : is_there (run none broken_twice create_daemon_host).0.settled ≡ true
unfolding is_there run create_daemon_host
broken_twice_settled = refl

stop_settles_example :
    is_there
      (run none
        (escalated ++ drain_end (inr "late") ∷ disposal_end none ∷ [])
        create_daemon_host).0.settled
    ≡ true
stop_settles_example = stop_settles none escalated (inr "late") none escalated_called

settled_once_example :
    ((run none escalated (run none broken_twice create_daemon_host).0).0.settled
      ≡ (run none broken_twice create_daemon_host).0.settled)
    × ((run none escalated (run none broken_twice create_daemon_host).0).1 ≡ [])
    × (times_called connection_stop (run none broken_twice create_daemon_host).1 ≡ 1)
settled_once_example = settled_once none broken_twice escalated broken_twice_settled

called_once_example :
    times_called sessions_dispose_all (run none broken_twice create_daemon_host).1 ≤ 1
called_once_example = called_once none sessions_dispose_all broken_twice
