-- ===== src/Lock/Guarded.antt =====
-- cache/lock.go: TryLock, WithLock and WithLockAutoExtend. The length of a list of attempts is
-- `maxRetry`; `fn` is what it does to the store and its result.
pub mod Attempts
pub mod Extension
use xlgo_core.Base.{
  ℕ, ◌+◌, ◌/◌, ◌<◌, ◌≡◌, refl, List, [], ◌∷◌, Bool, true, false, Option, none, some, if◌then◌else◌,
  Result, ok, err, arith, All, Bool-cases, inl, inr,
}
use xlgo_core.Base.Text.{Text, text_eq_refl}
use xlgo_core.Base.Int.{ℤ, pos, ltb_ℤ, leb_ℤ, pos_part}
use xlgo_core.Lock.{
  Redis, LockError, not_acquired, context_done, func_nil, invalid_interval, Wire, fine, ttl_millis,
  LockToken, holds, unlock_script, extend_script, eval, no_client?, with_ttl, new_lock, checked,
  unlock, extend_to, extend_lock,
}
use xlgo_core.Lock.Exclusion.{Call, locks, answer, Owned, Foreign, call-Owned, new_lock-taken}
use xlgo_core.Lock.Sessions.{elapsed, after, after-Owned, new_lock-takes, Owned-wait}

pub record Attempt : Type 0 where
  pub token : Text
  pub wire : Wire
  pub waited : ℕ
  pub cancelled : Bool

abbrev pub is_ok : {A : Type 0} → Result LockError A → Bool
is_ok (ok x) = true
is_ok (err e) = false

abbrev pub spent : List Attempt → ℕ
spent [] = 0
spent (a ∷ more) = a.waited + spent more

abbrev pub ticked : List (List (ℕ × Call) × Wire) → ℕ
ticked [] = 0
ticked ((cs, w) ∷ bs) = elapsed cs + ticked bs

-- What follows an attempt: the lock, an error, the end of the context, or the next attempt.
try_again :
    {S : Type 0}
    → Bool
    → S × Result LockError (Option LockToken)
    → S × Result LockError LockToken
    → S × Result LockError LockToken
try_again cancelled (s, err e) rest = (s, err e)
try_again cancelled (s, ok (some t)) rest = (s, ok t)
try_again cancelled (s, ok none) rest = if cancelled then (s, err context_done) else rest

-- Every tick comes in time and its extension gets through; nobody else has the token.
module _ (redis : Redis) where
  open redis use {Store, get, set_px, del, pexpire}

  attempts : Text → ℤ → List Attempt → ℕ → Store → Store × Result LockError LockToken
  unfolding try_again
  attempts key ttl [] now s = (s, err not_acquired)
  attempts key ttl (a ∷ more) now s =
      let tried = new_lock redis key a.token ttl now a.wire s in
      try_again a.cancelled tried (attempts key ttl more (now + a.waited) tried.0)

  -- `TryLock`
  unfoldable pub try_lock :
      Text → ℤ → ℤ → List Attempt → ℕ → Store → Store × Result LockError LockToken
  unfolding attempts
  try_lock key ttl interval tries now s =
      if leb_ℤ interval (pos 0) then (s, err invalid_interval) else attempts key ttl tries now s

  locked :
      {A : Type 0}
      → Store × Result LockError (Option LockToken)
      → (LockToken → Store → Store × Result LockError A)
      → Store × Result LockError A
  locked (s, err e) body = (s, err e)
  locked (s, ok none) body = (s, err not_acquired)
  locked (s, ok (some t)) body = body t s

  -- The deferred release: what it answers is dropped.
  then_unlock :
      {A : Type 0} → LockToken → ℕ → Wire → Store × Result LockError A → Store × Result LockError A
  then_unlock t now w (s, r) = ((unlock redis (some t) now w s).0, r)

  -- `WithLock`; `fn` takes `lasts` milliseconds.
  unfoldable pub with_lock :
      {A : Type 0}
      → Text
      → Text
      → ℤ
      → Option (Store → Store × Result LockError A)
      → ℕ
      → ℕ
      → Wire
      → Wire
      → Store
      → Store × Result LockError A
  unfolding locked then_unlock
  with_lock key token ttl none now lasts w w' s = (s, err func_nil)
  with_lock key token ttl (some fn) now lasts w w' s =
      locked (new_lock redis key token ttl now w s) (λ t s'. then_unlock t (now + lasts) w' (fn s'))

  -- The extending goroutine: before each tick the calls `fn` and others make; it ends with the first
  -- extension that fails.
  unfoldable pub extending :
      LockToken → ℤ → Bool → ℕ → List (List (ℕ × Call) × Wire) → Store → Store
  extending t ttl live now [] s = s
  extending t ttl live now ((cs, w) ∷ bs) s =
      let s1 = after redis now cs s in
      let (s2, r) = extend_lock redis (some t) ttl (now + elapsed cs) w s1 in
      if live
      then extending t ttl (is_ok r) (now + elapsed cs) bs s2
      else extending t ttl false (now + elapsed cs) bs s1

  -- `WithLockAutoExtend`; after the last tick `fn` still makes the calls `last`.
  unfoldable pub with_lock_auto_extend :
      {A : Type 0}
      → Text
      → Text
      → ℤ
      → ℤ
      → Option (Result LockError A)
      → ℕ
      → Wire
      → List (List (ℕ × Call) × Wire)
      → List (ℕ × Call)
      → Wire
      → Store
      → Store × Result LockError A
  unfolding locked then_unlock extending
  with_lock_auto_extend key token ttl interval none now w bs last w' s = (s, err func_nil)
  with_lock_auto_extend key token ttl interval (some r) now w bs last w' s =
      if leb_ℤ interval (pos 0)
      then (s, err invalid_interval)
      else locked (new_lock redis key token ttl now w s) (λ t s'.
        then_unlock t (now + ticked bs + elapsed last) w'
          (after redis (now + ticked bs) last (extending t ttl true now bs s'), r))
