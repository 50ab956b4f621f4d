-- ===== src/Ws/Hub/Steps.antt =====
-- ws/ws.go, `Hub`: what is empty when, in every reachable state.
use xlgo_core.Base.{
  ℕ, ◌≡◌, refl, subst, [], ◌∷◌, Bool, true, false, not, ◌&&◌, Option, none, some, length, arith,
  length-append,
}
use xlgo_core.Base.Text.{Text}
use xlgo_core.Ws.Hub.{
  Hub, Runner, Stopper, unstarted, looping, run_draining, run_closing, run_done, stop_closing,
  waiting, returned, new_hub, started, stopped, enqueue_register, enqueue_unregister,
  enqueue_broadcast, close_all, take_register, take_unregister, take_broadcast, Channel,
  from_register, from_unregister, from_broadcast, drain_pending, nothing_pending, Move, loop_takes,
  loop_stops, run_drains, run_drained, run_closes, Event, run_begins, moves, registers, unregisters,
  broadcasts, stop_begins, stop_drains, stop_drained, stop_closes, stop_returns, closes, sends,
  pumps, loop_step, move_at, run_step, stop_at, step, Reachable, created, stepped,
}

-- The loop is over; and it has found the channels empty.
abbrev pub ending : Runner → Bool
ending unstarted = false
ending looping = false
ending _ = true

abbrev pub emptied : Runner → Bool
emptied run_closing = true
emptied run_done = true
emptied _ = false

abbrev pub is_done : Runner → Bool
is_done run_done = true
is_done _ = false

abbrev pub is_closing : Stopper → Bool
is_closing stop_closing = true
is_closing _ = false

abbrev pub is_waiting : Stopper → Bool
is_waiting waiting = true
is_waiting _ = false

abbrev pub is_returned : Stopper → Bool
is_returned returned = true
is_returned _ = false

pub record Inv (h : Hub) : Type 0 where
  pub ends : ending h.runner ≡ true → stopped h.stopper ≡ true
  pub run_empty : emptied h.runner ≡ true → nothing_pending h ≡ true
  pub run_alone : is_done h.runner ≡ true → length h.connections ≡ 0
  pub stop_empty : is_closing h.stopper ≡ true → nothing_pending h ≡ true
  pub wait_empty : is_waiting h.stopper && not (started h.runner) ≡ true → nothing_pending h ≡ true
  pub wait_alone : is_waiting h.stopper && not (started h.runner) ≡ true → length h.connections ≡ 0
  pub empty : is_returned h.stopper ≡ true → nothing_pending h ≡ true
  pub alone : is_returned h.stopper ≡ true → length h.connections ≡ 0

enqueue_register-Inv : (c : Option ℕ) (b : Bool) (h : Hub) → Inv h → Inv (enqueue_register c b h).0
unfolding enqueue_register
enqueue_register-Inv none b h v = v
enqueue_register-Inv (some c) b h v = ground (arith, length-append h.register (c ∷ []))

enqueue_unregister-Inv :
    (c : Option ℕ) (b : Bool) (h : Hub) → Inv h → Inv (enqueue_unregister c b h).0
unfolding enqueue_unregister
enqueue_unregister-Inv none b h v = v
enqueue_unregister-Inv (some c) b h v = ground (arith, length-append h.unregister (c ∷ []))

enqueue_broadcast-Inv : (m : Text) (b : Bool) (h : Hub) → Inv h → Inv (enqueue_broadcast m b h).0
unfolding enqueue_broadcast
enqueue_broadcast-Inv m b h v = ground (arith, length-append h.broadcast (m ∷ []))

-- The channels and connections of one hub, where only they have got shorter.
drain_pending-Inv : (ch : Channel) (h k : Hub) → drain_pending ch h ≡ some k → Inv h → Inv k
unfolding drain_pending
drain_pending-Inv from_register h k e v = ground arith
drain_pending-Inv from_unregister h k e v = ground arith
drain_pending-Inv from_broadcast h k e v = ground arith

loop_step-Inv :
    (ch : Channel) (h k : Hub)
    → ending h.runner ≡ false
    → started h.runner ≡ true
    → loop_step ch h ≡ some k
    → Inv h
    → Inv k
unfolding loop_step take_register take_unregister take_broadcast
loop_step-Inv from_register h k r t e v = ground arith
loop_step-Inv from_unregister h k r t e v = ground arith
loop_step-Inv from_broadcast h k r t e v = ground arith

move_at-Inv :
    (r : Runner) (m : Move) (h k : Hub) → h.runner ≡ r → move_at r m h ≡ some k → Inv h → Inv k
unfolding move_at close_all
move_at-Inv unstarted m h k q e v = cc
move_at-Inv looping (loop_takes ch) h k q e v = loop_step-Inv ch h k (rw q) (rw q) e v
move_at-Inv looping loop_stops h k q e v = ground arith
move_at-Inv looping (run_drains ch) h k q e v = cc
move_at-Inv looping run_drained h k q e v = cc
move_at-Inv looping run_closes h k q e v = cc
move_at-Inv run_draining (run_drains ch) h k q e v = drain_pending-Inv ch h k e v
move_at-Inv run_draining run_drained h k q e v = ground arith
move_at-Inv run_draining (loop_takes ch) h k q e v = cc
move_at-Inv run_draining loop_stops h k q e v = cc
move_at-Inv run_draining run_closes h k q e v = cc
move_at-Inv run_closing run_closes h k q e v = ground arith
move_at-Inv run_closing (loop_takes ch) h k q e v = cc
move_at-Inv run_closing loop_stops h k q e v = cc
move_at-Inv run_closing (run_drains ch) h k q e v = cc
move_at-Inv run_closing run_drained h k q e v = cc
move_at-Inv run_done m h k q e v = cc

stop_begins-Inv : (h k : Hub) → stop_at h.stopper stop_begins h ≡ some k → Inv h → Inv k
unfolding stop_at
stop_begins-Inv h k e v = ground arith

stop_drained-Inv : (h k : Hub) → stop_at h.stopper stop_drained h ≡ some k → Inv h → Inv k
unfolding stop_at
stop_drained-Inv h k e v = ground arith

stop_closes-Inv : (h k : Hub) → stop_at h.stopper stop_closes h ≡ some k → Inv h → Inv k
unfolding stop_at close_all
stop_closes-Inv h k e v = ground arith

stop_returns-Inv : (h k : Hub) → stop_at h.stopper stop_returns h ≡ some k → Inv h → Inv k
unfolding stop_at
stop_returns-Inv h k e v = ground arith

stop_drains-Inv :
    (ch : Channel) (h k : Hub) → stop_at h.stopper (stop_drains ch) h ≡ some k → Inv h → Inv k
unfolding stop_at
stop_drains-Inv ch h k e v = ground (arith, drain_pending-Inv ch h k)

some_of : (h k : Hub) → some h ≡ some k → Inv h → Inv k
some_of h k e v = let q : h ≡ k = cc in subst Inv q v

pub step-Inv : (e : Event) (h k : Hub) → step e h ≡ some k → Inv h → Inv k
unfolding step run_step
step-Inv run_begins h k e v = ground arith
step-Inv (moves m) h k e v = move_at-Inv h.runner m h k refl e v
step-Inv (registers c b) h k e v =
    some_of (enqueue_register c b h).0 k e (enqueue_register-Inv c b h v)
step-Inv (unregisters c b) h k e v =
    some_of (enqueue_unregister c b h).0 k e (enqueue_unregister-Inv c b h v)
step-Inv (broadcasts m b) h k e v =
    some_of (enqueue_broadcast m b h).0 k e (enqueue_broadcast-Inv m b h v)
step-Inv (closes c) h k e v = ground arith
step-Inv (sends c m) h k e v = ground arith
step-Inv (pumps c written) h k e v = ground arith
step-Inv stop_begins h k e v = stop_begins-Inv h k e v
step-Inv (stop_drains ch) h k e v = stop_drains-Inv ch h k e v
step-Inv stop_drained h k e v = stop_drained-Inv h k e v
step-Inv stop_closes h k e v = stop_closes-Inv h k e v
step-Inv stop_returns h k e v = stop_returns-Inv h k e v

pub Reachable-Inv : {h : Hub} → Reachable h → Inv h
unfolding new_hub
Reachable-Inv (created w) = ground arith
Reachable-Inv (stepped {h} {k} e r s) = step-Inv e h k s (Reachable-Inv r)
