-- ===== src/Lock/Guarded/Attempts.antt =====
-- cache/lock.go: TryLock on a key that is held.
use xlgo_core.Base.{
  ℕ, ◌+◌, ◌<◌, ◌≡◌, refl, List, [], ◌∷◌, Bool, true, false, Option, none, some, Result, ok, err,
  arith, Bool-cases, inl, inr,
}
use xlgo_core.Base.Text.{Text}
use xlgo_core.Base.Int.{ℤ, pos, leb_ℤ}
use xlgo_core.Lock.{Redis, LockError, LockToken, new_lock}
use xlgo_core.Lock.Exclusion.{locks, answer, Owned, call-Owned, new_lock-taken}
use xlgo_core.Lock.Sessions.{Owned-wait}
use xlgo_core.Lock.Guarded.{Attempt, is_ok, spent, try_again, attempts, try_lock}

module _ (redis : Redis) where
  open redis use {Store, get, set_px, del, pexpire}

  try_again-taken :
      (c : Bool) (x : Store × Result LockError (Option LockToken))
      (rest : Store × Result LockError LockToken) (P : Store → Type 0)
      → answer x.1 ≡ false
      → P x.0
      → (is_ok rest.1 ≡ false) × P rest.0
      → (is_ok (try_again c x rest).1 ≡ false) × P (try_again c x rest).0
  unfolding try_again
  try_again-taken c (s, err e) rest P h p q = (refl, p)
  try_again-taken c (s, ok (some t)) rest P h p q = (cc, p)
  try_again-taken true (s, ok none) rest P h p q = (refl, p)
  try_again-taken false (s, ok none) rest P h p q = q

  attempts-taken :
      (tries : List Attempt) (key owner : Text) (ttl : ℤ) (now end : ℕ) (s : Store)
      → now + spent tries < end
      → Owned redis key owner now end s
      → (is_ok (attempts redis key ttl tries now s).1 ≡ false)
        × Owned redis key owner (now + spent tries) end (attempts redis key ttl tries now s).0
  unfolding attempts
  attempts-taken [] key owner ttl now end s h o = (refl, Owned-wait redis key owner now 0 end s o)
  attempts-taken (a ∷ more) key owner ttl now end s h o =
      let o' =
        call-Owned redis (locks key a.token ttl a.wire) key owner now end s (omega arith) tt o in
      let rest =
        attempts-taken more key owner ttl (now + a.waited) end
          (new_lock redis key a.token ttl now a.wire s).0 (omega arith)
          (Owned-wait redis key owner now a.waited end
            (new_lock redis key a.token ttl now a.wire s).0 o') in
      try_again-taken a.cancelled (new_lock redis key a.token ttl now a.wire s)
        (attempts redis key ttl more (now + a.waited)
          (new_lock redis key a.token ttl now a.wire s).0)
        (Owned redis key owner (now + spent (a ∷ more)) end)
        (new_lock-taken redis key a.token owner ttl now end a.wire s (omega arith) o)
        (λ later p q. o' later (omega arith) q) (rest.0, λ later p q. rest.1 later (omega arith) q)

  -- `TryLock` on a key that another token holds beyond its last attempt fails, whatever becomes of
  -- each attempt, and leaves the key to the holder.
  pub try_lock-taken :
      (tries : List Attempt) (key owner : Text) (ttl interval : ℤ) (now end : ℕ) (s : Store)
      → now + spent tries < end
      → Owned redis key owner now end s
      → (is_ok (try_lock redis key ttl interval tries now s).1 ≡ false)
        × Owned redis key owner
            (now + spent tries)
            end
            (try_lock redis key ttl interval tries now s).0
  unfolding try_lock
  try_lock-taken tries key owner ttl interval now end s h o =
      elim (Bool-cases (leb_ℤ interval (pos 0))) [
        | inl bad ↦ rw bad (refl, Owned-wait redis key owner now (spent tries) end s o)
        | inr good ↦ rw good (attempts-taken tries key owner ttl now end s h o)
      ]
