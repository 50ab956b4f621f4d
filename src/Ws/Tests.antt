-- ===== src/Ws/Tests.antt =====
-- The hub on short histories.
use xlgo_core.Base.{◌+◌, ◌≤◌, ◌≡◌, ◌⊎◌, refl, List, [], ◌∷◌, true, false, some}
use xlgo_core.Base.Text.{codes}
use xlgo_core.Ws.{Connections, close}
use xlgo_core.Ws.Hub.{
  Hub, Event, new_hub, looping, run_done, returned, started, run_begins, moves, loop_takes,
  loop_stops, from_register, from_broadcast, run_drains, run_drained, run_closes, registers,
  broadcasts, stop_begins, stop_returns, run_from, enqueue_register, created, waiting,
}
use xlgo_core.Ws.Hub.Lost.{kept, enqueue_register-closed}
use xlgo_core.Ws.Hub.Ending.{Able, run_from-ends}

abbrev world : Connections
world = record { closed = λ c. false; send = λ c. [] }

abbrev fresh : Hub
fresh = new_hub world

-- The hub runs, takes the first connection, is stopped, and drops a message and a second connection
-- that still wait.
abbrev day : List Event
day =
    run_begins
    ∷ moves (loop_takes from_register)
    ∷ broadcasts (codes "hi") true
    ∷ registers (some 8) true
    ∷ stop_begins
    ∷ moves loop_stops
    ∷ moves (run_drains from_broadcast)
    ∷ moves (run_drains from_register)
    ∷ moves run_drained
    ∷ moves run_closes
    ∷ stop_returns
    ∷ []

abbrev evening : Hub
evening = record {
  connections = [];
  register = [];
  unregister = [];
  broadcast = [];
  runner = run_done;
  stopper = returned;
  world = close 7 (close 8 world);
}

run_from-day : run_from day (enqueue_register (some 7) false fresh).0 ≡ some evening
unfolding run_from new_hub enqueue_register
run_from-day = refl

enqueue_register-closed_example :
    (kept 7 evening ≡ true) × (returned ≡ returned → evening.world.closed 7 ≡ true)
enqueue_register-closed_example =
    enqueue_register-closed 7 false day evening (created world) run_from-day

-- A hub that was stopped with a connection in its channel, and whose goroutine is still at its loop.
abbrev late : Hub
late = record {
  connections = 4 ∷ [];
  register = 5 ∷ [];
  unregister = [];
  broadcast = [];
  runner = looping;
  stopper = waiting;
  world = world;
}

abbrev later : Hub
later = record late { connections = 5 ∷ 4 ∷ []; register = [] }

run_from-late : run_from (moves (loop_takes from_register) ∷ []) late ≡ some later
unfolding run_from
run_from-late = refl

run_from-ends_example :
    (1 ≤ 1 + 0 + 0 + 4) × (started later.runner ≡ true → (later.runner ≡ run_done) ⊎ Able later)
run_from-ends_example =
    run_from-ends (moves (loop_takes from_register) ∷ []) late later refl run_from-late
