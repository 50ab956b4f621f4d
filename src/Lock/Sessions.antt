-- ===== src/Lock/Sessions.antt =====
-- cache/lock.go: taking the lock, the calls of others meanwhile, TryLock, WithLock and
-- WithLockAutoExtend.
use xlgo_core.Base.{
  ℕ, ◌+◌, ◌/◌, ◌<◌, ◌≡◌, refl, List, [], ◌∷◌, Bool, false, some, ok, arith, ◌||◌, All, Bool-cases,
  inl, inr,
}
use xlgo_core.Base.Text.{Text, text_eq_refl}
use xlgo_core.Base.Int.{ℤ, pos, ltb_ℤ, pos_part}
use xlgo_core.Lock.{
  Redis, Wire, no_client, lost, answer_lost, odd_answer, fine, ttl_millis, LockToken, lock_script,
  eval, no_client?, acquired, with_ttl, new_lock,
}
use xlgo_core.Lock.Exclusion.{Call, call, Owned, Foreign, call-Owned, grants, call-no_grant}

-- Calls one after the other, each with the milliseconds since the one before.
abbrev pub elapsed : List (ℕ × Call) → ℕ
elapsed [] = 0
elapsed ((d, c) ∷ cs) = d + elapsed cs

module _ (redis : Redis) where
  open redis use {Store, get, set_px, del, pexpire}

  abbrev pub after : ℕ → List (ℕ × Call) → Store → Store
  after now [] s = s
  after now ((d, c) ∷ cs) s = after (now + d) cs (call redis (now + d) c s).0

  abbrev pub granted : Text → ℕ → List (ℕ × Call) → Store → Bool
  granted key now [] s = false
  granted key now ((d, c) ∷ cs) s =
      grants redis key (now + d) c s || granted key (now + d) cs (call redis (now + d) c s).0

  pub Owned-wait :
      (key owner : Text) (now d end : ℕ) (s : Store)
      → Owned redis key owner now end s
      → Owned redis key owner (now + d) end s
  Owned-wait key owner now d end s o later p q = o later (omega arith) q

  pub after-Owned :
      (cs : List (ℕ × Call)) (key owner : Text) (now end : ℕ) (s : Store)
      → now + elapsed cs < end
      → All (λ x. Foreign key owner x.1) cs
      → Owned redis key owner now end s
      → (granted key now cs s ≡ false)
        × Owned redis key owner (now + elapsed cs) end (after now cs s)
  after-Owned [] key owner now end s h f o = (refl, Owned-wait key owner now 0 end s o)
  after-Owned ((d, c) ∷ cs) key owner now end s h (f, fs) o =
      let o' = Owned-wait key owner now d end s o in
      let rest =
        after-Owned cs key owner (now + d) end (call redis (now + d) c s).0 (omega arith) fs
          (call-Owned redis c key owner (now + d) end s (omega arith) f o') in
      (
        rw (call-no_grant redis c key owner (now + d) end s (omega arith) o') rest.0,
        λ later p q. rest.1 later (omega arith) q,
      )

  eval-one :
      (w : Wire) (script : Store → Store × ℕ) (s : Store) (k v : Text) (t : LockToken)
      → acquired k v (eval redis w script s).1 ≡ ok (some t)
      → ((eval redis w script s).0 ≡ (script s).0)
        × ((script s).1 ≡ 1)
        × (t ≡ record { key = k; token = v })
  unfolding eval acquired
  eval-one no_client script s k v t h = cc
  eval-one lost script s k v t h = cc
  eval-one answer_lost script s k v t h = cc
  eval-one odd_answer script s k v t h = cc
  eval-one fine script s k v t h = (refl, ground arith, ground arith)

  lock_script-takes :
      (key token : Text) (ms now : ℕ) (s : Store)
      → (lock_script redis key token ms now s).1 ≡ 1
      → Owned redis key token now (now + ms) (lock_script redis key token ms now s).0
  unfolding lock_script
  lock_script-takes key token ms now s h later p q =
      ground (arith, text_eq_refl key, redis.get-set_px s now later key key token ms)

  with_ttl-takes :
      (key owner : Text) (now ms : ℕ) (w : Wire) (s : Store) (t : LockToken)
      → (with_ttl redis key owner now w s (ok ms)).1 ≡ ok (some t)
      → (t ≡ record { key = key; token = owner })
        × Owned redis key owner now (now + ms) (with_ttl redis key owner now w s (ok ms)).0
  unfolding with_ttl
  with_ttl-takes key owner now ms w s t h =
      let run = eval-one w (lock_script redis key owner ms now) s key owner t h in
      (run.2, rw run.0 (lock_script-takes key owner ms now s run.1))

  pub new_lock-takes :
      (key owner : Text) (ttl : ℤ) (now : ℕ) (w : Wire) (s : Store) (t : LockToken)
      → (new_lock redis key owner ttl now w s).1 ≡ ok (some t)
      → (t ≡ record { key = key; token = owner })
        × Owned redis key owner now
            (now + pos_part ttl / 1000000)
            (new_lock redis key owner ttl now w s).0
  unfolding new_lock ttl_millis
  new_lock-takes key owner ttl now w s t h = elim (Bool-cases (no_client? w)) [
    | inl gone ↦ cc (rw gone at h)
    | inr there ↦ elim (Bool-cases (ltb_ℤ ttl (pos 1000000))) [
      | inl short ↦ cc (rw (there, short, with_ttl) at h)
      | inr long ↦
          rw (there, long)
            (with_ttl-takes key owner now (pos_part ttl / 1000000) w s t (rw (there, long) at h))
    ]
  ]

  -- A lock taken for a time to live is its taker's until that time has passed: as long as the key is
  -- only touched by calls on locks, of which none releases or extends it with that very token or
  -- forces it open (`ForceUnlock`, `UnlockByKey`), none of the calls that the clients make meanwhile,
  -- whether they reach the server or their answer is lost, gets a lock on the key, and the key keeps
  -- the taker's token.
  pub new_lock-exclusive :
      (key owner : Text) (ttl : ℤ) (now : ℕ) (w : Wire) (s : Store) (t : LockToken)
      → (new_lock redis key owner ttl now w s).1 ≡ ok (some t)
      → (cs : List (ℕ × Call)) → elapsed cs < pos_part ttl / 1000000
      → All (λ x. Foreign key owner x.1) cs
      → (granted key now cs (new_lock redis key owner ttl now w s).0 ≡ false)
        × Owned redis key owner
            (now + elapsed cs)
            (now + pos_part ttl / 1000000)
            (after now cs (new_lock redis key owner ttl now w s).0)
  new_lock-exclusive key owner ttl now w s t h cs soon f =
      after-Owned cs key owner now (now + pos_part ttl / 1000000)
        (new_lock redis key owner ttl now w s).0 (omega arith) f
        (new_lock-takes key owner ttl now w s t h).1
