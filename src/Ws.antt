-- ===== src/Ws.antt =====
-- ws/ws.go: connections with their send buffers, the check of an origin, and the hub, as far as
-- each is this repository's: gorilla/websocket moves the bytes.
pub mod Hub
pub mod Origin
mod Tests
use xlgo_core.Base.{
  ℕ, List, [], ◌∷◌, ◌++◌, Bool, true, false, Option, none, some, ltb, ◌==◌, if◌then◌else◌, length,
}
use xlgo_core.Base.Text.{Text}

-- The connections, known by numbers: whether `closeChan` is closed, and what `send` holds.
pub record Connections : Type 0 where
  pub closed : ℕ → Bool
  pub send : ℕ → List Text

abbrev pub at {ℓ} : {A : Type ℓ} → ℕ → A → (ℕ → A) → ℕ → A
at c v f j = if j == c then v else f j

pub data SendError : Type 0 where
  connection_closed send_buffer_full : SendError

abbrev pub buffer_size : ℕ
buffer_size = 256

-- `Send`: it never waits. A `Close` that comes between its tests only turns one error into another,
-- or leaves the message in a buffer that nobody reads.
unfoldable pub send : ℕ → Text → Connections → Connections × Option SendError
send c message w =
    if w.closed c
    then (w, some connection_closed)
    else if ltb (length (w.send c)) buffer_size
    then (record w { send = at c (w.send c ++ message ∷ []) w.send }, none)
    else (w, some send_buffer_full)

-- `Close`: once or often, it is the same.
unfoldable pub close : ℕ → Connections → Connections
close c w = record w { closed = at c true w.closed }

first_of : List Text → Option (Text × List Text)
first_of [] = none
first_of (m ∷ ms) = some (m, ms)

-- One round of `writePump` on a message: what it takes out, and whether the write went well; if not,
-- it closes the connection and ends. On a closed connection it has ended or will.
unfoldable pub write_pump : ℕ → Bool → Connections → Option (Connections × Text)
unfolding first_of close
write_pump c written w = if w.closed c then none else elim (first_of (w.send c)) [
  | none ↦ none
  | some (m, ms) ↦
      let taken = record w { send = at c ms w.send } in
      some (if written then taken else close c taken, m)
]
