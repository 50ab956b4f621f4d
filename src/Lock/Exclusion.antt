-- ===== src/Lock/Exclusion.antt =====
-- cache/lock.go: while a lock lives, nobody else takes, releases or extends it.
use xlgo_core.Base.{
  ℕ, ◌≤◌, ◌<◌, ◌≡◌, refl, Bool, true, false, Option, some, Result, ok, err, arith, ◌&&◌, Bool-cases,
  inl, inr, ◌≢◌, ◌⊎◌,
}
use xlgo_core.Base.Text.{Text, text_eq, text_eq_iff}
use xlgo_core.Base.Int.{ℤ}
use xlgo_core.Lock.{
  Redis, LockError, Wire, no_client, lost, answer_lost, odd_answer, fine, ttl_millis, LockToken,
  holds, lock_script, unlock_script, extend_script, eval, no_client?, acquired, with_ttl, new_lock,
  unlock, extend_to, extend_lock, force_unlock,
}

-- A call of some client on a lock: the token it holds or brings, and what becomes of the call. `forces`
-- is `ForceUnlock` or `UnlockByKey`, which ask for no token. The counters, `SetRaw` and `SetExpire` of
-- the same file are not among them: they are taken to be used on other keys.
pub data Call : Type 0 where
  locks : (key token : Text) → ℤ → Wire → Call
  unlocks : LockToken → Wire → Call
  extends : LockToken → ℤ → Wire → Call
  forces : Text → Wire → Call

-- Whether a call came back with the lock.
abbrev pub answer : Result LockError (Option LockToken) → Bool
answer (ok (some t)) = true
answer _ = false

-- Neither the owner's token nor one that happens to be equal is used on the key, and nobody forces
-- the key open.
abbrev pub Foreign : Text → Text → Call → Type 0
Foreign key owner (locks k token ttl w) = Unit
Foreign key owner (unlocks t w) = (t.key ≢ key) ⊎ (t.token ≢ owner)
Foreign key owner (extends t ttl w) = (t.key ≢ key) ⊎ (t.token ≢ owner)
Foreign key owner (forces k w) = k ≢ key

module _ (redis : Redis) where
  open redis use {Store, get, set_px, del, pexpire}

  abbrev pub call : ℕ → Call → Store → Store × Bool
  call now (locks key token ttl w) s =
      let (s', r) = new_lock redis key token ttl now w s in (s', answer r)
  call now (unlocks t w) s = ((unlock redis (some t) now w s).0, false)
  call now (extends t ttl w) s = ((extend_lock redis (some t) ttl now w s).0, false)
  call now (forces k w) s = ((force_unlock redis k now w s).0, false)

  -- The key belongs to the token until the time `end` at least.
  abbrev pub Owned : Text → Text → ℕ → ℕ → Store → Type 0
  Owned key owner now end s = (later : ℕ) → now ≤ later → later < end → get s later key ≡ some owner

  eval-Owned :
      (w : Wire) (script : Store → Store × ℕ) (s : Store) (P : Store → Type 0)
      → P s
      → P (script s).0
      → P (eval redis w script s).0
  unfolding eval
  eval-Owned no_client script s P h k = h
  eval-Owned lost script s P h k = h
  eval-Owned answer_lost script s P h k = k
  eval-Owned odd_answer script s P h k = k
  eval-Owned fine script s P h k = k

  lock_script-Owned :
      (k token key owner : Text) (ttl now end : ℕ) (s : Store)
      → now < end
      → Owned key owner now end s
      → Owned key owner now end (lock_script redis k token ttl now s).0
  unfolding lock_script
  lock_script-Owned k token key owner ttl now end s h o later p q =
      ground
        (arith, o now, o later, text_eq_iff k key, redis.get-set_px s now later k key token ttl)

  lock_script-taken :
      (k token owner : Text) (ttl now end : ℕ) (s : Store)
      → now < end
      → Owned k owner now end s
      → (lock_script redis k token ttl now s).1 ≡ 0
  unfolding lock_script
  lock_script-taken k token owner ttl now end s h o = ground (arith, o now)

  unlock_script-Owned :
      (k token key owner : Text) (now end : ℕ) (s : Store)
      → now < end
      → (k ≢ key) ⊎ (token ≢ owner)
      → Owned key owner now end s
      → Owned key owner now end (unlock_script redis k token now s).0
  unfolding unlock_script holds
  unlock_script-Owned k token key owner now end s h f o later p q = ground (
    arith,
    o now,
    o later,
    text_eq_iff k key,
    text_eq_iff owner token,
    redis.get-del s now later k key,
  )

  extend_script-Owned :
      (k token key owner : Text) (ttl now end : ℕ) (s : Store)
      → now < end
      → (k ≢ key) ⊎ (token ≢ owner)
      → Owned key owner now end s
      → Owned key owner now end (extend_script redis k token ttl now s).0
  unfolding extend_script holds
  extend_script-Owned k token key owner ttl now end s h f o later p q = ground (
    arith,
    o now,
    o later,
    text_eq_iff k key,
    text_eq_iff owner token,
    redis.get-pexpire s now later k key ttl,
  )

  with_ttl-Owned :
      (k token key owner : Text) (now end : ℕ) (w : Wire) (s : Store) (r : Result LockError ℕ)
      → now < end
      → Owned key owner now end s
      → Owned key owner now end (with_ttl redis k token now w s r).0
  unfolding with_ttl
  with_ttl-Owned k token key owner now end w s (err e) h o = o
  with_ttl-Owned k token key owner now end w s (ok ms) h o =
      eval-Owned w (lock_script redis k token ms now) s (Owned key owner now end) o
        (lock_script-Owned k token key owner ms now end s h o)

  extend_to-Owned :
      (t : LockToken) (key owner : Text) (now end : ℕ) (w : Wire) (s : Store)
      (r : Result LockError ℕ)
      → now < end
      → (t.key ≢ key) ⊎ (t.token ≢ owner)
      → Owned key owner now end s
      → Owned key owner now end (extend_to redis t now w s r).0
  unfolding extend_to
  extend_to-Owned t key owner now end w s (err e) h f o = o
  extend_to-Owned t key owner now end w s (ok ms) h f o =
      eval-Owned w (extend_script redis t.key t.token ms now) s (Owned key owner now end) o
        (extend_script-Owned t.key t.token key owner ms now end s h f o)

  del-Owned :
      (k key owner : Text) (now end : ℕ) (s : Store)
      → now < end
      → k ≢ key
      → Owned key owner now end s
      → Owned key owner now end (del s now k)
  del-Owned k key owner now end s h f o later p q =
      ground (arith, o later, text_eq_iff k key, redis.get-del s now later k key)

  force_unlock-Owned :
      (k key owner : Text) (now end : ℕ) (w : Wire) (s : Store)
      → now < end
      → k ≢ key
      → Owned key owner now end s
      → Owned key owner now end (force_unlock redis k now w s).0
  unfolding force_unlock
  force_unlock-Owned k key owner now end no_client s h f o = o
  force_unlock-Owned k key owner now end lost s h f o = o
  force_unlock-Owned k key owner now end answer_lost s h f o = del-Owned k key owner now end s h f o
  force_unlock-Owned k key owner now end odd_answer s h f o = del-Owned k key owner now end s h f o
  force_unlock-Owned k key owner now end fine s h f o = del-Owned k key owner now end s h f o

  pub call-Owned :
      (c : Call) (key owner : Text) (now end : ℕ) (s : Store)
      → now < end
      → Foreign key owner c
      → Owned key owner now end s
      → Owned key owner now end (call now c s).0
  unfolding new_lock unlock extend_lock
  call-Owned (locks k token ttl w) key owner now end s h f o = elim (Bool-cases (no_client? w)) [
    | inl gone ↦ rw gone o
    | inr there ↦ rw there (with_ttl-Owned k token key owner now end w s (ttl_millis ttl) h o)
  ]
  call-Owned (unlocks t w) key owner now end s h f o =
      eval-Owned w (unlock_script redis t.key t.token now) s (Owned key owner now end) o
        (unlock_script-Owned t.key t.token key owner now end s h f o)
  call-Owned (extends t ttl w) key owner now end s h f o = elim (Bool-cases (no_client? w)) [
    | inl gone ↦ rw gone o
    | inr there ↦ rw there (extend_to-Owned t key owner now end w s (ttl_millis ttl) h f o)
  ]
  call-Owned (forces k w) key owner now end s h f o =
      force_unlock-Owned k key owner now end w s h f o

  -- A call that comes back with a lock on the key.
  abbrev pub grants : Text → ℕ → Call → Store → Bool
  grants key now (locks k token ttl w) s =
      text_eq k key && answer (new_lock redis k token ttl now w s).1
  grants key now _ s = false

  eval-taken :
      (w : Wire) (k token : Text) (script : Store → Store × ℕ) (s : Store)
      → (script s).1 ≡ 0
      → answer (acquired k token (eval redis w script s).1) ≡ false
  unfolding eval acquired
  eval-taken no_client k token script s h = refl
  eval-taken lost k token script s h = refl
  eval-taken answer_lost k token script s h = refl
  eval-taken odd_answer k token script s h = refl
  eval-taken fine k token script s h = rw h refl

  with_ttl-taken :
      (k token owner : Text) (now end : ℕ) (w : Wire) (s : Store) (r : Result LockError ℕ)
      → now < end
      → Owned k owner now end s
      → answer (with_ttl redis k token now w s r).1 ≡ false
  unfolding with_ttl
  with_ttl-taken k token owner now end w s (err e) h o = refl
  with_ttl-taken k token owner now end w s (ok ms) h o =
      eval-taken w k token (lock_script redis k token ms now) s
        (lock_script-taken k token owner ms now end s h o)

  pub new_lock-taken :
      (k token owner : Text) (ttl : ℤ) (now end : ℕ) (w : Wire) (s : Store)
      → now < end
      → Owned k owner now end s
      → answer (new_lock redis k token ttl now w s).1 ≡ false
  unfolding new_lock
  new_lock-taken k token owner ttl now end w s h o = elim (Bool-cases (no_client? w)) [
    | inl gone ↦ rw gone refl
    | inr there ↦ rw there (with_ttl-taken k token owner now end w s (ttl_millis ttl) h o)
  ]

  pub call-no_grant :
      (c : Call) (key owner : Text) (now end : ℕ) (s : Store)
      → now < end
      → Owned key owner now end s
      → grants key now c s ≡ false
  call-no_grant (locks k token ttl w) key owner now end s h o = ground (
    arith,
    text_eq_iff k key,
    λ (same : k ≡ key). new_lock-taken k token owner ttl now end w s h (rw same o),
  )
  call-no_grant (unlocks t w) key owner now end s h o = refl
  call-no_grant (extends t ttl w) key owner now end s h o = refl
  call-no_grant (forces k w) key owner now end s h o = refl
