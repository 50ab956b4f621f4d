-- ===== src/Lock.antt =====
-- cache/lock.go: the distributed lock, over a Redis server that is a parameter. Times are
-- milliseconds; a duration is an `int64` of nanoseconds.
pub mod Exclusion
pub mod Guarded
pub mod Sessions
mod Tests
use xlgo_core.Base.{
  ℕ, zero, suc, ◌+◌, ◌/◌, ◌≤◌, ◌≡◌, List, [], ◌∷◌, Bool, true, false, Option, none, some, ltb, ◌==◌,
  if◌then◌else◌, Result, ok, err, ◌>>=◌,
}
use xlgo_core.Base.Text.{Text, text_eq}
use xlgo_core.Base.Int.{ℤ, pos, pos_part, ltb_ℤ, leb_ℤ}

-- The commands of the server that the scripts call, each at a time. `get` sees no key whose time
-- to live has passed.
pub record Redis : Type 1 where
  pub Store : Type 0
  pub get : Store → ℕ → Text → Option Text
  pub set_px : Store → ℕ → Text → Text → ℕ → Store
  pub del : Store → ℕ → Text → Store
  pub pexpire : Store → ℕ → Text → ℕ → Store
  pub get-set_px :
      (s : Store) (now later : ℕ) (k j v : Text) (ttl : ℕ)
      → now ≤ later
      → get (set_px s now k v ttl) later j
        ≡ (if text_eq k j then (if ltb later (now + ttl) then some v else none) else get s later j)
  pub get-del :
      (s : Store) (now later : ℕ) (k j : Text)
      → now ≤ later
      → get (del s now k) later j ≡ (if text_eq k j then none else get s later j)
  pub get-pexpire :
      (s : Store) (now later : ℕ) (k j : Text) (ttl : ℕ)
      → now ≤ later
      → get (pexpire s now k ttl) later j ≡ (
          if text_eq k j
          then (if ltb later (now + ttl) then get s now k else none)
          else get s later j)

pub data LockError : Type 0 where
  redis_not_ready invalid_ttl invalid_interval unexpected_result not_held not_acquired : LockError
  func_nil backend_error context_done : LockError

-- What becomes of a call: the client is nil, the call is lost on its way or only its answer is, the
-- answer has another type than an integer, or all goes well.
pub data Wire : Type 0 where
  no_client lost answer_lost odd_answer fine : Wire

-- `ttlMillis`
unfoldable pub ttl_millis : ℤ → Result LockError ℕ
ttl_millis ttl = if ltb_ℤ ttl (pos 1000000) then err invalid_ttl else ok (pos_part ttl / 1000000)

pub record LockToken : Type 0 where
  pub key : Text
  pub token : Text

holds : Option Text → Text → Bool
unfolding text_eq
holds none token = false
holds (some v) token = text_eq v token

abbrev is_none : Option Text → Bool
is_none none = true
is_none (some v) = false

abbrev pub no_client? : Wire → Bool
no_client? no_client = true
no_client? _ = false

acquired : Text → Text → Result LockError ℕ → Result LockError (Option LockToken)
acquired key token (err e) = err e
acquired key token (ok n) =
    if n == 1 then ok (some (record { key = key; token = token })) else ok none

checked : Result LockError ℕ → Result LockError (Unit {0})
checked (err e) = err e
checked (ok n) = if n == 0 then err not_held else ok tt

module _ (redis : Redis) where
  open redis use {Store, get, set_px, del, pexpire}

  -- `lockScript`, `unlockScript` and `extendScript`
  unfoldable pub lock_script : Text → Text → ℕ → ℕ → Store → Store × ℕ
  lock_script key token ttl now s =
      if is_none (get s now key) then (set_px s now key token ttl, 1) else (s, 0)

  unfoldable pub unlock_script : Text → Text → ℕ → Store → Store × ℕ
  unfolding holds
  unlock_script key token now s = if holds (get s now key) token then (del s now key, 1) else (s, 0)

  unfoldable pub extend_script : Text → Text → ℕ → ℕ → Store → Store × ℕ
  unfolding holds
  extend_script key token ttl now s =
      if holds (get s now key) token then (pexpire s now key ttl, 1) else (s, 0)

  -- `rdb.Eval(...)` and `toInt64`: the store afterwards, and the integer or the error.
  unfoldable pub eval : Wire → (Store → Store × ℕ) → Store → Store × Result LockError ℕ
  eval no_client script s = (s, err redis_not_ready)
  eval lost script s = (s, err backend_error)
  eval answer_lost script s = ((script s).0, err backend_error)
  eval odd_answer script s = ((script s).0, err unexpected_result)
  eval fine script s = ((script s).0, ok (script s).1)

  with_ttl :
      Text
      → Text
      → ℕ
      → Wire
      → Store
      → Result LockError ℕ
      → Store × Result LockError (Option LockToken)
  unfolding eval lock_script acquired
  with_ttl key token now w s (err e) = (s, err e)
  with_ttl key token now w s (ok ms) =
      let (s', r) = eval w (lock_script key token ms now) s in (s', acquired key token r)

  -- `NewLock`; `token` is the fresh UUID.
  unfoldable pub new_lock :
      Text → Text → ℤ → ℕ → Wire → Store → Store × Result LockError (Option LockToken)
  unfolding with_ttl ttl_millis
  new_lock key token ttl now w s =
      if no_client? w then (s, err redis_not_ready) else with_ttl key token now w s (ttl_millis ttl)

  -- `Unlock`
  unfoldable pub unlock : Option LockToken → ℕ → Wire → Store → Store × Result LockError (Unit {0})
  unfolding eval unlock_script checked
  unlock none now w s = (s, if no_client? w then err redis_not_ready else err not_held)
  unlock (some t) now w s =
      let (s', r) = eval w (unlock_script t.key t.token now) s in (s', checked r)

  extend_to :
      LockToken → ℕ → Wire → Store → Result LockError ℕ → Store × Result LockError (Unit {0})
  unfolding eval extend_script checked
  extend_to t now w s (err e) = (s, err e)
  extend_to t now w s (ok ms) =
      let (s', r) = eval w (extend_script t.key t.token ms now) s in (s', checked r)

  -- `ExtendLock`
  unfoldable pub extend_lock :
      Option LockToken → ℤ → ℕ → Wire → Store → Store × Result LockError (Unit {0})
  unfolding extend_to ttl_millis
  extend_lock none ttl now w s = (s, if no_client? w then err redis_not_ready else err not_held)
  extend_lock (some t) ttl now w s =
      if no_client? w then (s, err redis_not_ready) else extend_to t now w s (ttl_millis ttl)

  -- `UnlockByKey` and `ForceUnlock`
  unfoldable pub force_unlock : Text → ℕ → Wire → Store → Store × Result LockError (Unit {0})
  force_unlock key now no_client s = (s, err redis_not_ready)
  force_unlock key now lost s = (s, err backend_error)
  force_unlock key now answer_lost s = (del s now key, err backend_error)
  force_unlock key now _ s = (del s now key, ok tt)

  -- `IsLocked`
  unfoldable pub is_locked : Text → ℕ → Wire → Store → Result LockError Bool
  is_locked key now no_client s = err redis_not_ready
  is_locked key now fine s = ok (if is_none (get s now key) then false else true)
  is_locked key now _ s = err backend_error
