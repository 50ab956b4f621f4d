-- ===== src/Ws/Hub/Lost.antt =====
-- ws/ws.go, `Hub`: no connection is lost between the caller, the channels and the map.
use xlgo_core.Base.{
  ℕ, ◌≡◌, refl, subst, List, [], ◌∷◌, ◌++◌, Bool, true, false, not, ◌&&◌, ◌||◌, Option, none, some,
  ◌==◌, length, arith, Option-cases, inl, inr,
}
use xlgo_core.Base.Text.{Text}
use xlgo_core.Ws.{Connections, send, close, write_pump}
use xlgo_core.Ws.Hub.{
  Hub, Runner, unstarted, looping, run_draining, run_closing, run_done, returned, holds, remove,
  enqueue_register, enqueue_unregister, enqueue_broadcast, deliver, keep_sent, close_failed,
  close_each, close_all, take_register, take_unregister, take_broadcast, Channel, from_register,
  from_unregister, from_broadcast, drain_pending, Move, loop_takes, loop_stops, run_drains,
  run_drained, run_closes, Event, run_begins, moves, registers, unregisters, broadcasts,
  stop_begins, stop_drains, stop_drained, stop_closes, stop_returns, closes, sends, pumps,
  loop_step, move_at, run_step, stop_at, step, Reachable, stepped, run_from,
}
use xlgo_core.Ws.Hub.Steps.{Reachable-Inv}

-- The hub still answers for the connection, or it is closed.
abbrev pub kept : ℕ → Hub → Bool
kept c h = h.world.closed c || (holds c h.register || holds c h.connections)

holds-append : (c : ℕ) (xs ys : List ℕ) → holds c (xs ++ ys) ≡ (holds c xs || holds c ys)
holds-append c [] ys = refl
holds-append c (x ∷ xs) ys = ground (arith, holds-append c xs ys)

holds-remove : (c d : ℕ) (cs : List ℕ) → holds c (remove d cs) ≡ (not (d == c) && holds c cs)
unfolding remove
holds-remove c d [] = ground arith
holds-remove c d (x ∷ cs) = ground (arith, holds-remove c d cs)

enqueue_register-kept :
    (c : ℕ) (b : Bool) (h : Hub) → kept c (enqueue_register (some c) b h).0 ≡ true
unfolding enqueue_register close
enqueue_register-kept c b h = ground (arith, holds-append c h.register (c ∷ []))

register-kept :
    (c : ℕ) (d : Option ℕ) (b : Bool) (h : Hub)
    → kept c h ≡ true
    → kept c (enqueue_register d b h).0 ≡ true
unfolding enqueue_register close
register-kept c none b h k = k
register-kept c (some d) b h k = ground (arith, holds-append c h.register (d ∷ []))

unregister-kept :
    (c : ℕ) (d : Option ℕ) (b : Bool) (h : Hub)
    → kept c h ≡ true
    → kept c (enqueue_unregister d b h).0 ≡ true
unfolding enqueue_unregister
unregister-kept c none b h k = k
unregister-kept c (some d) b h k = ground arith

broadcast-kept :
    (c : ℕ) (m : Text) (b : Bool) (h : Hub)
    → kept c h ≡ true
    → kept c (enqueue_broadcast m b h).0 ≡ true
unfolding enqueue_broadcast
broadcast-kept c m b h k = ground arith

closed-send : (c d : ℕ) (m : Text) (w : Connections) → (send d m w).0.closed c ≡ w.closed c
unfolding send
closed-send c d m w = ground arith

closed-close : (c d : ℕ) (w : Connections) → (close d w).closed c ≡ (c == d || w.closed c)
unfolding close
closed-close c d w = ground arith

closed-write_pump :
    (c d : ℕ) (b : Bool) (w v : Connections) (m : Text)
    → write_pump d b w ≡ some (v, m)
    → w.closed c ≡ true
    → v.closed c ≡ true
unfolding write_pump close
closed-write_pump c d b w v m e k = ground arith

closed-close_each :
    (c : ℕ) (cs : List ℕ) (w : Connections)
    → (close_each cs w).closed c ≡ (holds c cs || w.closed c)
unfolding close_each close
closed-close_each c [] w = refl
closed-close_each c (d ∷ cs) w = ground (arith, closed-close_each c cs (close d w))

deliver-kept :
    (c : ℕ) (m : Text) (cs : List ℕ) (w : Connections)
    → (w.closed c || holds c cs) ≡ true
    → ((deliver m cs w).1.closed c || holds c (deliver m cs w).0) ≡ true
unfolding deliver
deliver-kept c m [] w k = k
deliver-kept c m (d ∷ cs) w k = elim (Option-cases (send d m w).1) [
  | inl sent ↦
      rw (sent, close_failed, keep_sent)
        (ground (arith, deliver-kept c m cs (send d m w).0, closed-send c d m w))
  | inr (e, failed) ↦
      rw (failed, close_failed, keep_sent)
        (ground (
          arith,
          deliver-kept c m cs (close d (send d m w).0),
          closed-close c d (send d m w).0,
          closed-send c d m w,
        ))
]

take_register-kept :
    (c : ℕ) (ds : List ℕ) (h k : Hub)
    → h.register ≡ ds
    → take_register ds h ≡ some k
    → kept c h ≡ true
    → kept c k ≡ true
unfolding take_register
take_register-kept c [] h k q e v = cc
take_register-kept c (d ∷ ds) h k q e v = ground (arith, holds-remove c d h.connections)

take_unregister-kept :
    (c : ℕ) (ds : List ℕ) (h k : Hub)
    → take_unregister ds h ≡ some k
    → kept c h ≡ true
    → kept c k ≡ true
unfolding take_unregister
take_unregister-kept c [] h k e v = cc
take_unregister-kept c (d ∷ ds) h k e v =
    ground (arith, holds-remove c d h.connections, closed-close c d h.world)

take_broadcast-kept :
    (c : ℕ) (ms : List Text) (h k : Hub)
    → take_broadcast ms h ≡ some k
    → kept c h ≡ true
    → kept c k ≡ true
unfolding take_broadcast
take_broadcast-kept c [] h k e v = cc
take_broadcast-kept c (m ∷ ms) h k e v = ground (arith, deliver-kept c m h.connections h.world)

drain_pending-kept :
    (c : ℕ) (ch : Channel) (h k : Hub)
    → drain_pending ch h ≡ some k
    → kept c h ≡ true
    → kept c k ≡ true
unfolding drain_pending close
drain_pending-kept c from_register h k e v = ground arith
drain_pending-kept c from_unregister h k e v = ground arith
drain_pending-kept c from_broadcast h k e v = ground arith

close_all-kept : (c : ℕ) (h : Hub) → kept c h ≡ true → kept c (close_all h) ≡ true
unfolding close_all
close_all-kept c h v = ground (arith, closed-close_each c h.connections h.world)

move_at-kept :
    (c : ℕ) (r : Runner) (m : Move) (h k : Hub)
    → move_at r m h ≡ some k
    → kept c h ≡ true
    → kept c k ≡ true
unfolding move_at loop_step
move_at-kept c unstarted m h k e v = cc
move_at-kept c looping (loop_takes from_register) h k e v =
    take_register-kept c h.register h k refl e v
move_at-kept c looping (loop_takes from_unregister) h k e v =
    take_unregister-kept c h.unregister h k e v
move_at-kept c looping (loop_takes from_broadcast) h k e v =
    take_broadcast-kept c h.broadcast h k e v
move_at-kept c looping loop_stops h k e v = ground arith
move_at-kept c looping (run_drains ch) h k e v = cc
move_at-kept c looping run_drained h k e v = cc
move_at-kept c looping run_closes h k e v = cc
move_at-kept c run_draining (run_drains ch) h k e v = drain_pending-kept c ch h k e v
move_at-kept c run_draining run_drained h k e v = ground arith
move_at-kept c run_draining (loop_takes ch) h k e v = cc
move_at-kept c run_draining loop_stops h k e v = cc
move_at-kept c run_draining run_closes h k e v = cc
move_at-kept c run_closing run_closes h k e v = ground (arith, close_all-kept c h)
move_at-kept c run_closing (loop_takes ch) h k e v = cc
move_at-kept c run_closing loop_stops h k e v = cc
move_at-kept c run_closing (run_drains ch) h k e v = cc
move_at-kept c run_closing run_drained h k e v = cc
move_at-kept c run_done m h k e v = cc

pumps-kept :
    (c d : ℕ) (b : Bool) (h k : Hub)
    → step (pumps d b) h ≡ some k
    → kept c h ≡ true
    → kept c k ≡ true
unfolding step
pumps-kept c d b h k e v = elim (Option-cases (write_pump d b h.world)) [
  | inl stuck ↦ cc (rw (stuck, step) at e)
  | inr ((w, m), s) ↦
      let q : some (record h { world = w }) ≡ some k = rw (s, step) at e in
      ground (arith, closed-write_pump c d b h.world w m s)
]

step-kept : (c : ℕ) (e : Event) (h k : Hub) → step e h ≡ some k → kept c h ≡ true → kept c k ≡ true
unfolding step run_step stop_at
step-kept c run_begins h k e v = ground arith
step-kept c (moves m) h k e v = move_at-kept c h.runner m h k e v
step-kept c (registers d b) h k e v = ground (arith, register-kept c d b h)
step-kept c (unregisters d b) h k e v = ground (arith, unregister-kept c d b h)
step-kept c (broadcasts m b) h k e v = ground (arith, broadcast-kept c m b h)
step-kept c (closes d) h k e v = ground (arith, closed-close c d h.world)
step-kept c (sends d m) h k e v = ground (arith, closed-send c d m h.world)
step-kept c (pumps d written) h k e v = pumps-kept c d written h k e v
step-kept c stop_begins h k e v = ground arith
step-kept c (stop_drains ch) h k e v = ground (arith, drain_pending-kept c ch h k)
step-kept c stop_drained h k e v = ground arith
step-kept c stop_closes h k e v = ground (arith, close_all-kept c h)
step-kept c stop_returns h k e v = ground arith

run_from-kept :
    (c : ℕ) (es : List Event) (h k : Hub)
    → run_from es h ≡ some k
    → kept c h ≡ true
    → kept c k ≡ true
unfolding run_from
run_from-kept c [] h k e v = ground arith
run_from-kept c (x ∷ es) h k e v = elim (Option-cases (step x h)) [
  | inl stuck ↦ cc (rw (stuck, run_from) at e)
  | inr (g, s) ↦ run_from-kept c es g k (rw (s, run_from) at e) (step-kept c x h g s v)
]

run_from-Reachable :
    (es : List Event) (h k : Hub) → run_from es h ≡ some k → Reachable h → Reachable k
unfolding run_from
run_from-Reachable [] h k e r = let q : h ≡ k = cc in subst Reachable q r
run_from-Reachable (x ∷ es) h k e r = elim (Option-cases (step x h)) [
  | inl stuck ↦ cc (rw (stuck, run_from) at e)
  | inr (g, s) ↦ run_from-Reachable es g k (rw (s, run_from) at e) (stepped x r s)
]

holds_of_length : (c : ℕ) (cs : List ℕ) → length cs ≡ 0 → holds c cs ≡ false
holds_of_length c [] e = refl
holds_of_length c (d ∷ cs) e = absurd (omega (arith, e))

-- No connection is lost: one that was given to `Register` or `TryRegister` in any reachable state,
-- whatever the answer was, is at every later time closed, in the channel of registrations or in the
-- map; and once `Stop` has returned it is closed, whether or not the hub ever ran.
pub enqueue_register-closed :
    {h : Hub} (c : ℕ) (b : Bool) (es : List Event) (k : Hub)
    → Reachable h
    → run_from es (enqueue_register (some c) b h).0 ≡ some k
    → (kept c k ≡ true) × (k.stopper ≡ returned → k.world.closed c ≡ true)
unfolding step
enqueue_register-closed {h} c b es k r e =
    let first = (enqueue_register (some c) b h).0 in
    let safe = run_from-kept c es first k e (enqueue_register-kept c b h) in
    let v =
      Reachable-Inv (run_from-Reachable es first k e (stepped (registers (some c) b) r refl)) in
    (
      safe,
      λ q. ground (
        arith,
        safe,
        v.alone (rw q),
        v.empty (rw q),
        holds_of_length c k.register,
        holds_of_length c k.connections,
      ),
    )
