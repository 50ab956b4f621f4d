-- ===== src/App/History.antt =====
-- app.go: histories of calls on one App, and what is left of it in the process.
use xlgo_core.Base.{List, [], ◌∷◌, Bool, true, false, not}
use xlgo_core.App.{App, Answers, go}
use xlgo_core.App.Init.{init}
use xlgo_core.App.Stop.{shutdown, Network, run}
use xlgo_core.App.Started.{closed_by_another}

-- The calls of `Init`, `Shutdown`, `Go` and `Run`; the mutexes let them come one after the other. A
-- `Shutdown` that closes the server of a `Run` counts after that `Run`, which may return before it.
pub data Call : Type 0 where
  inits shuts : Answers → Call
  goes : Bool → Call
  runs : Answers → Network → Call

unfoldable pub called : Call → App → App
unfolding init shutdown go run
called (inits s) a = (init s a).0
called (shuts s) a = (shutdown s a).0
called (goes given) a = go given a
called (runs s n) a = (run s n a).0

unfoldable pub called_all : List Call → App → App
unfolding called
called_all [] a = a
called_all (c ∷ cs) a = called_all cs (called c a)

-- After these the App is over.
abbrev pub ends : Call → Bool
ends (inits s) = false
ends (goes given) = false
ends (shuts s) = true
ends (runs s n) = not (closed_by_another n)
