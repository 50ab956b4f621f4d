-- ===== src/Ws/Hub/Ending.antt =====
-- ws/ws.go, `Hub`: once `Stop` has begun, the goroutine of `Run` ends.
use xlgo_core.Base.{
  ℕ, suc, ◌+◌, ◌≤◌, ◌≡◌, ◌⊎◌, refl, ap, subst, List, [], ◌∷◌, Bool, true, Option, none, some,
  length, arith, Option-cases, inl, inr,
}
use xlgo_core.Base.Text.{Text}
use xlgo_core.Ws.{close}
use xlgo_core.Ws.Hub.{
  Hub, Runner, unstarted, looping, run_draining, run_closing, run_done, started, stopped,
  enqueue_register, enqueue_unregister, enqueue_broadcast, close_all, take_register,
  take_unregister, take_broadcast, Channel, from_register, from_unregister, from_broadcast,
  drain_pending, Move, loop_takes, loop_stops, run_drains, run_drained, run_closes, Event,
  run_begins, moves, registers, unregisters, broadcasts, stop_begins, stop_drains, stop_drained,
  stop_closes, stop_returns, closes, sends, pumps, loop_step, move_at, run_step, stop_at, step,
  run_from,
}

-- How far the goroutine is from its end, were it alone.
rank : Runner → ℕ
rank unstarted = 4
rank looping = 3
rank run_draining = 2
rank run_closing = 1
rank run_done = 0

unfoldable pub left : Hub → ℕ
unfolding rank
left h = length h.register + (length h.unregister + (length h.broadcast + rank h.runner))

abbrev pub is_move : Event → ℕ
is_move (moves m) = 1
is_move _ = 0

abbrev pub moves_in : List Event → ℕ
moves_in [] = 0
moves_in (e ∷ es) = is_move e + moves_in es

abbrev Shrinks : Hub → Hub → Type 0
Shrinks h k = (suc (left k) ≤ left h) × (k.stopper ≡ h.stopper)

drain_pending-left : (ch : Channel) (h k : Hub) → drain_pending ch h ≡ some k → Shrinks h k
unfolding left drain_pending
drain_pending-left from_register h k e = ground arith
drain_pending-left from_unregister h k e = ground arith
drain_pending-left from_broadcast h k e = ground arith

take_register-left :
    (cs : List ℕ) (h k : Hub) → h.register ≡ cs → take_register cs h ≡ some k → Shrinks h k
unfolding left take_register
take_register-left [] h k q e = cc
take_register-left (c ∷ cs) h k q e = ground arith

take_unregister-left :
    (cs : List ℕ) (h k : Hub) → h.unregister ≡ cs → take_unregister cs h ≡ some k → Shrinks h k
unfolding left take_unregister
take_unregister-left [] h k q e = cc
take_unregister-left (c ∷ cs) h k q e = ground arith

take_broadcast-left :
    (ms : List Text) (h k : Hub) → h.broadcast ≡ ms → take_broadcast ms h ≡ some k → Shrinks h k
unfolding left take_broadcast
take_broadcast-left [] h k q e = cc
take_broadcast-left (m ∷ ms) h k q e = ground arith

move_at-left :
    (r : Runner) (m : Move) (h k : Hub) → h.runner ≡ r → move_at r m h ≡ some k → Shrinks h k
unfolding move_at loop_step left close_all
move_at-left unstarted m h k q e = cc
move_at-left looping (loop_takes from_register) h k q e = take_register-left h.register h k refl e
move_at-left looping (loop_takes from_unregister) h k q e =
    take_unregister-left h.unregister h k refl e
move_at-left looping (loop_takes from_broadcast) h k q e =
    take_broadcast-left h.broadcast h k refl e
move_at-left looping loop_stops h k q e = ground arith
move_at-left looping (run_drains ch) h k q e = cc
move_at-left looping run_drained h k q e = cc
move_at-left looping run_closes h k q e = cc
move_at-left run_draining (run_drains ch) h k q e = drain_pending-left ch h k e
move_at-left run_draining run_drained h k q e = ground arith
move_at-left run_draining (loop_takes ch) h k q e = cc
move_at-left run_draining loop_stops h k q e = cc
move_at-left run_draining run_closes h k q e = cc
move_at-left run_closing run_closes h k q e = ground arith
move_at-left run_closing (loop_takes ch) h k q e = cc
move_at-left run_closing loop_stops h k q e = cc
move_at-left run_closing (run_drains ch) h k q e = cc
move_at-left run_closing run_drained h k q e = cc
move_at-left run_done m h k q e = cc

enqueue-left :
    (e : Option ℕ) (m : Text) (b : Bool) (h : Hub)
    → stopped h.stopper ≡ true
    → (left (enqueue_register e b h).0 ≡ left h)
      × (left (enqueue_unregister e b h).0 ≡ left h)
      × ((enqueue_broadcast m b h).0 ≡ h)
unfolding enqueue_register enqueue_unregister enqueue_broadcast left
enqueue-left none m b h s = (refl, refl, ground arith)
enqueue-left (some c) m b h s = (ground arith, ground arith, ground arith)

enqueue-stopper :
    (e : Option ℕ) (b : Bool) (h : Hub)
    → ((enqueue_register e b h).0.stopper ≡ h.stopper)
      × ((enqueue_unregister e b h).0.stopper ≡ h.stopper)
unfolding enqueue_register enqueue_unregister
enqueue-stopper none b h = (refl, refl)
enqueue-stopper (some c) b h = (ground arith, ground arith)

-- No event undoes what the goroutine has done.
abbrev Goes : Event → Hub → Hub → Type 0
Goes e h k = (is_move e + left k ≤ left h) × (stopped k.stopper ≡ true)

step-left : (e : Event) (h k : Hub) → step e h ≡ some k → stopped h.stopper ≡ true → Goes e h k
unfolding step run_step stop_at left close_all
step-left (moves m) h k e s = ground (arith, move_at-left h.runner m h k refl e)
step-left run_begins h k e s = ground arith
step-left (registers c b) h k e s = ground (arith, enqueue-left c [] b h s, enqueue-stopper c b h)
step-left (unregisters c b) h k e s = ground (arith, enqueue-left c [] b h s, enqueue-stopper c b h)
step-left (broadcasts m b) h k e s = ground (arith, enqueue-left none m b h s)
step-left (closes c) h k e s = ground arith
step-left (sends c m) h k e s = ground arith
step-left (pumps c written) h k e s = ground arith
step-left stop_begins h k e s = ground arith
step-left (stop_drains ch) h k e s = ground (arith, drain_pending-left ch h k)
step-left stop_drained h k e s = ground arith
step-left stop_closes h k e s = ground arith
step-left stop_returns h k e s = ground arith

-- The goroutine has a step that it can take.
abbrev pub Able : Hub → Type 0
Able h = (m : Move) × (k : Hub) × (run_step m h ≡ some k)

drain-Able :
    (reg unr : List ℕ) (bro : List Text) (h : Hub)
    → h.register ≡ reg
    → h.unregister ≡ unr
    → h.broadcast ≡ bro
    → h.runner ≡ run_draining
    → Able h
unfolding run_step move_at drain_pending
drain-Able (c ∷ cs) unr bro h a b d q =
    (run_drains from_register, record h { register = cs; world = close c h.world }, rw (q, a) refl)
drain-Able [] (c ∷ cs) bro h a b d q = (
  run_drains from_unregister,
  record h { unregister = cs; world = close c h.world },
  rw (q, b) refl,
)
drain-Able [] [] (m ∷ ms) h a b d q =
    (run_drains from_broadcast, record h { broadcast = ms }, rw (q, d) refl)
drain-Able [] [] [] h a b d q =
    (run_drained, record h { runner = run_closing }, rw (q, a, b, d) refl)

Able-at :
    (r : Runner) (h : Hub)
    → h.runner ≡ r
    → stopped h.stopper ≡ true
    → started r ≡ true
    → (r ≡ run_done) ⊎ Able h
unfolding run_step move_at
Able-at unstarted h q s t = cc
Able-at looping h q s t = inr (loop_stops, record h { runner = run_draining }, rw (q, s) refl)
Able-at run_draining h q s t =
    inr (drain-Able h.register h.unregister h.broadcast h refl refl refl q)
Able-at run_closing h q s t =
    inr (run_closes, record (close_all h) { runner = run_done }, rw q refl)
Able-at run_done h q s t = inl refl

run_from-left :
    (es : List Event) (h k : Hub)
    → run_from es h ≡ some k
    → stopped h.stopper ≡ true
    → (moves_in es + left k ≤ left h) × (stopped k.stopper ≡ true)
unfolding run_from
run_from-left [] h k e s =
    let q : h ≡ k = cc in (omega (arith, ap left q), subst (λ x. stopped x.stopper ≡ true) q s)
run_from-left (x ∷ es) h k e s = elim (Option-cases (step x h)) [
  | inl stuck ↦ cc (rw (stuck, run_from) at e)
  | inr (g, t) ↦
      let one = step-left x h g t s in
      let rest = run_from-left es g k (rw (t, run_from) at e) one.1 in
      (omega (arith, one.0, rest.0), rest.1)
]

left-le : (h : Hub) → left h ≤ length h.register + length h.unregister + length h.broadcast + 4
unfolding left
left-le h = ground arith

-- After `Stop` has begun, the goroutine of `Run` ends: however the callers, the connections and `Stop`
-- interleave with it, it takes at most as many steps as its channels hold and four more, and until it
-- has ended it always has a step that waits for nobody.
pub run_from-ends :
    (es : List Event) (h k : Hub)
    → stopped h.stopper ≡ true
    → run_from es h ≡ some k
    → (moves_in es ≤ length h.register + length h.unregister + length h.broadcast + 4)
      × (started k.runner ≡ true → (k.runner ≡ run_done) ⊎ Able k)
run_from-ends es h k s e =
    let all = run_from-left es h k e s in
    (omega (arith, all.0, left-le h), Able-at k.runner k refl all.1)
