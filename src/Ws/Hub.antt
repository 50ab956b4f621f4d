-- ===== src/Ws/Hub.antt =====
-- ws/ws.go, `Hub`: its three channels of 256 places, the goroutine of `Run`, and `Stop`. An event is
-- what happens under one lock or in one case of a `select`, so that a history is any interleaving of
-- the loop, the callers and the connections. A nil connection never enters a channel.
mod Steps
pub mod Lost
pub mod Ending
use xlgo_core.Base.{
  ℕ, ◌+◌, List, [], ◌∷◌, ◌++◌, Bool, true, false, not, ◌&&◌, ◌||◌, Option, none, some, ltb, ◌==◌,
  ◌≡◌, if◌then◌else◌, length,
}
use xlgo_core.Base.Text.{Text}
use xlgo_core.Ws.{Connections, SendError, buffer_size, send, close, write_pump}

-- Where the goroutine of `Run` is.
pub data Runner : Type 0 where
  unstarted looping run_draining run_closing run_done : Runner

-- Where `Stop` is: before the first call, in `stopOnce`, and after it.
pub data Stopper : Type 0 where
  unstopped stop_draining stop_closing waiting returned : Stopper

pub record Hub : Type 0 where
  pub connections : List ℕ
  pub register : List ℕ
  pub unregister : List ℕ
  pub broadcast : List Text
  pub runner : Runner
  pub stopper : Stopper
  pub world : Connections

pub data HubError : Type 0 where
  hub_not_running hub_stopped hub_queue_full nil_connection : HubError

unfoldable pub new_hub : Connections → Hub
new_hub w = record {
  connections = [];
  register = [];
  unregister = [];
  broadcast = [];
  runner = unstarted;
  stopper = unstopped;
  world = w;
}

-- `runStarted` and `stopped`
abbrev pub started : Runner → Bool
started unstarted = false
started _ = true

abbrev pub stopped : Stopper → Bool
stopped unstopped = false
stopped _ = true

abbrev pub holds : ℕ → List ℕ → Bool
holds c [] = false
holds c (d ∷ ds) = d == c || holds c ds

-- `delete(h.connections, conn)`
unfoldable pub remove : ℕ → List ℕ → List ℕ
remove c [] = []
remove c (d ∷ ds) = if d == c then remove c ds else d ∷ remove c ds

abbrev pub closing : ℕ → Hub → Hub
closing c h = record h { world = close c h.world }

-- `enqueueRegister`
unfoldable pub enqueue_register : Option ℕ → Bool → Hub → Hub × Option HubError
unfolding close
enqueue_register none require_started h = (h, some nil_connection)
enqueue_register (some c) require_started h =
    if stopped h.stopper
    then (closing c h, some hub_stopped)
    else if require_started && not (started h.runner)
    then (closing c h, some hub_not_running)
    else if ltb (length h.register) buffer_size
    then (record h { register = h.register ++ c ∷ [] }, none)
    else (closing c h, some hub_queue_full)

-- `enqueueUnregister`
unfoldable pub enqueue_unregister : Option ℕ → Bool → Hub → Hub × Option HubError
enqueue_unregister none require_started h = (h, some nil_connection)
enqueue_unregister (some c) require_started h =
    if stopped h.stopper
    then (h, some hub_stopped)
    else if require_started && not (started h.runner)
    then (h, some hub_not_running)
    else if ltb (length h.unregister) buffer_size
    then (record h { unregister = h.unregister ++ c ∷ [] }, none)
    else (h, some hub_queue_full)

-- `enqueueBroadcast`
unfoldable pub enqueue_broadcast : Text → Bool → Hub → Hub × Option HubError
enqueue_broadcast message require_started h =
    if stopped h.stopper
    then (h, some hub_stopped)
    else if require_started && not (started h.runner)
    then (h, some hub_not_running)
    else if ltb (length h.broadcast) buffer_size
    then (record h { broadcast = h.broadcast ++ message ∷ [] }, none)
    else (h, some hub_queue_full)

keep_sent : ℕ → Option SendError → List ℕ → List ℕ
keep_sent c none kept = c ∷ kept
keep_sent c (some e) kept = kept

close_failed : ℕ → Option SendError → Connections → Connections
unfolding close
close_failed c none w = w
close_failed c (some e) w = close c w

-- The loop of a broadcast over the connections: those that take the message stay.
deliver : Text → List ℕ → Connections → List ℕ × Connections
unfolding send keep_sent close_failed
deliver message [] w = ([], w)
deliver message (c ∷ cs) w =
    let sent = send c message w in
    let rest = deliver message cs (close_failed c sent.1 sent.0) in
    (keep_sent c sent.1 rest.0, rest.1)

-- `closeAll`, the loop
close_each : List ℕ → Connections → Connections
unfolding close
close_each [] w = w
close_each (c ∷ cs) w = close_each cs (close c w)

unfoldable pub close_all : Hub → Hub
unfolding close_each
close_all h = record h { connections = []; world = close_each h.connections h.world }

-- The cases of the `select` in `Run` on a channel that has something.
unfoldable pub take_register : List ℕ → Hub → Option Hub
unfolding remove
take_register [] h = none
take_register (c ∷ cs) h =
    some (record h { register = cs; connections = c ∷ remove c h.connections })

unfoldable pub take_unregister : List ℕ → Hub → Option Hub
unfolding remove close
take_unregister [] h = none
take_unregister (c ∷ cs) h = some (
    if holds c h.connections
    then record h { unregister = cs; connections = remove c h.connections; world = close c h.world }
    else record h { unregister = cs })

unfoldable pub take_broadcast : List Text → Hub → Option Hub
unfolding deliver
take_broadcast [] h = none
take_broadcast (m ∷ ms) h =
    let (kept, w) = deliver m h.connections h.world in
    some (record h { broadcast = ms; connections = kept; world = w })

-- The channel that a `select` found ready.
pub data Channel : Type 0 where
  from_register from_unregister from_broadcast : Channel

-- One round of `drainPending`.
unfoldable pub drain_pending : Channel → Hub → Option Hub
unfolding close
drain_pending from_register h = elim h.register [
  | [] ↦ none
  | c ∷ cs ↦ some (record h { register = cs; world = close c h.world })
]
drain_pending from_unregister h = elim h.unregister [
  | [] ↦ none
  | c ∷ cs ↦ some (record h { unregister = cs; world = close c h.world })
]
drain_pending from_broadcast h = elim h.broadcast [
  | [] ↦ none
  | m ∷ ms ↦ some (record h { broadcast = ms })
]

abbrev pub nothing_pending : Hub → Bool
nothing_pending h = length h.register == 0 && (length h.unregister == 0 && length h.broadcast == 0)

-- The steps of the goroutine of `Run`.
pub data Move : Type 0 where
  loop_takes : Channel → Move
  loop_stops : Move
  run_drains : Channel → Move
  run_drained run_closes : Move

-- Everything that happens. A caller's `Stop` that finds `stopOnce` done only waits.
pub data Event : Type 0 where
  run_begins : Event
  moves : Move → Event
  registers unregisters : Option ℕ → Bool → Event
  broadcasts : Text → Bool → Event
  stop_begins : Event
  stop_drains : Channel → Event
  stop_drained stop_closes stop_returns : Event
  closes : ℕ → Event
  sends : ℕ → Text → Event
  pumps : ℕ → Bool → Event

unfoldable pub loop_step : Channel → Hub → Option Hub
unfolding take_register take_unregister take_broadcast
loop_step from_register h = take_register h.register h
loop_step from_unregister h = take_unregister h.unregister h
loop_step from_broadcast h = take_broadcast h.broadcast h

move_at : Runner → Move → Hub → Option Hub
unfolding loop_step drain_pending close_all
move_at looping (loop_takes ch) h = loop_step ch h
move_at looping loop_stops h =
    if stopped h.stopper then some (record h { runner = run_draining }) else none
move_at run_draining (run_drains ch) h = drain_pending ch h
move_at run_draining run_drained h =
    if nothing_pending h then some (record h { runner = run_closing }) else none
move_at run_closing run_closes h = some (record (close_all h) { runner = run_done })
move_at _ _ h = none

-- `Run`, as the steps of its goroutine
unfoldable pub run_step : Move → Hub → Option Hub
unfolding move_at
run_step m h = move_at h.runner m h

-- `Stop`: a hub that does not run is emptied by the caller, and one that runs is waited for.
stop_at : Stopper → Event → Hub → Option Hub
unfolding drain_pending close_all
stop_at unstopped stop_begins h =
    some (record h { stopper = if started h.runner then waiting else stop_draining })
stop_at stop_draining (stop_drains ch) h = drain_pending ch h
stop_at stop_draining stop_drained h =
    if nothing_pending h then some (record h { stopper = stop_closing }) else none
stop_at stop_closing stop_closes h = some (record (close_all h) { stopper = waiting })
stop_at waiting stop_returns h = elim h.runner [
  | unstarted ↦ some (record h { stopper = returned })
  | run_done ↦ some (record h { stopper = returned })
  | _ ↦ none
]
stop_at _ _ h = none

unfoldable pub step : Event → Hub → Option Hub
unfolding run_step stop_at enqueue_register enqueue_unregister enqueue_broadcast send close
    write_pump
step run_begins h = if started h.runner then none else some (record h { runner = looping })
step (moves m) h = run_step m h
step (registers c b) h = some (enqueue_register c b h).0
step (unregisters c b) h = some (enqueue_unregister c b h).0
step (broadcasts m b) h = some (enqueue_broadcast m b h).0
step (closes c) h = some (record h { world = close c h.world })
step (sends c m) h = some (record h { world = (send c m h.world).0 })
step (pumps c written) h = elim (write_pump c written h.world) [
  | none ↦ none
  | some (w, m) ↦ some (record h { world = w })
]
step e h = stop_at h.stopper e h

-- The hubs that a history leads to.
pub data Reachable : Hub → Type 0 where
  created : (w : Connections) → Reachable (new_hub w)
  stepped : {h k : Hub} (e : Event) → Reachable h → step e h ≡ some k → Reachable k

unfoldable pub run_from : List Event → Hub → Option Hub
unfolding step
run_from [] h = some h
run_from (e ∷ es) h = elim (step e h) [ none ↦ none | some k ↦ run_from es k ]
