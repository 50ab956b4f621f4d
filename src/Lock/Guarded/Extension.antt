-- ===== src/Lock/Guarded/Extension.antt =====
-- cache/lock.go: the lock of WithLockAutoExtend outlives its time to live.
use xlgo_core.Base.{
  ℕ, ◌+◌, ◌/◌, ◌<◌, ◌≡◌, refl, List, [], ◌∷◌, true, false, Option, none, some, Result, ok, err,
  arith, All, Bool-cases, inl, inr,
}
use xlgo_core.Base.Text.{Text, text_eq_refl}
use xlgo_core.Base.Int.{ℤ, pos, ltb_ℤ, leb_ℤ, pos_part}
use xlgo_core.Lock.{
  Redis, LockError, Wire, fine, ttl_millis, LockToken, holds, unlock_script, extend_script, eval,
  no_client?, with_ttl, new_lock, checked, unlock, extend_to, extend_lock,
}
use xlgo_core.Lock.Exclusion.{Call, Owned, Foreign}
use xlgo_core.Lock.Sessions.{elapsed, after, after-Owned, new_lock-takes}
use xlgo_core.Lock.Guarded.{is_ok, ticked, locked, then_unlock, extending, with_lock_auto_extend}

abbrev pub Timely : LockToken → ℕ → List (List (ℕ × Call) × Wire) → Type 0
Timely t ms [] = Unit
Timely t ms ((cs, w) ∷ bs) =
    (elapsed cs < ms) × All (λ x. Foreign t.key t.token x.1) cs × (w ≡ fine) × Timely t ms bs

module _ (redis : Redis) where
  open redis use {Store, get, set_px, del, pexpire}

  extend_script-own :
      (k v : Text) (ms now end : ℕ) (s : Store)
      → now < end
      → Owned redis k v now end s
      → ((extend_script redis k v ms now s).1 ≡ 1)
        × Owned redis k v now (now + ms) (extend_script redis k v ms now s).0
  unfolding extend_script holds
  extend_script-own k v ms now end s h o =
      let mine : holds (get s now k) v ≡ true = rw (o now (omega arith) h) (text_eq_refl v) in
      (
        ground (arith, mine),
        λ later p q.
            ground (arith, mine, o now, text_eq_refl k, redis.get-pexpire s now later k k ms),
      )

  extend_to-own :
      (t : LockToken) (ms now end : ℕ) (s : Store)
      → now < end
      → Owned redis t.key t.token now end s
      → (is_ok (extend_to redis t now fine s (ok ms)).1 ≡ true)
        × Owned redis t.key t.token now (now + ms) (extend_to redis t now fine s (ok ms)).0
  unfolding extend_to eval checked
  extend_to-own t ms now end s h o =
      let done = extend_script-own t.key t.token ms now end s h o in (rw done.0 refl, done.1)

  extend_lock-own :
      (t : LockToken) (ttl : ℤ) (now end : ℕ) (s : Store)
      → now < end
      → ltb_ℤ ttl (pos 1000000) ≡ false
      → Owned redis t.key t.token now end s
      → (is_ok (extend_lock redis (some t) ttl now fine s).1 ≡ true)
        × Owned redis t.key t.token now
            (now + pos_part ttl / 1000000)
            (extend_lock redis (some t) ttl now fine s).0
  unfolding extend_lock ttl_millis
  extend_lock-own t ttl now end s h long o =
      rw long (extend_to-own t (pos_part ttl / 1000000) now end s h o)

  extending-Owned :
      (bs : List (List (ℕ × Call) × Wire)) (t : LockToken) (ttl : ℤ) (now : ℕ) (s : Store)
      → ltb_ℤ ttl (pos 1000000) ≡ false
      → Timely t (pos_part ttl / 1000000) bs
      → Owned redis t.key t.token now (now + pos_part ttl / 1000000) s
      → Owned redis t.key t.token
          (now + ticked bs)
          (now + ticked bs + pos_part ttl / 1000000)
          (extending redis t ttl true now bs s)
  unfolding extending
  extending-Owned [] t ttl now s long h o = λ later p q. o later (omega arith) (omega arith)
  extending-Owned ((cs, w) ∷ bs) t ttl now s long (soon, f, e, hs) o =
      let ms = pos_part ttl / 1000000 in
      let kept = after-Owned redis cs t.key t.token now (now + ms) s (omega arith) f o in
      let more =
        extend_lock-own t ttl (now + elapsed cs) (now + ms) (after redis now cs s) (omega arith)
          long kept.1 in
      let rest =
        extending-Owned bs t ttl (now + elapsed cs)
          (extend_lock redis (some t) ttl (now + elapsed cs) fine (after redis now cs s)).0 long hs
          more.1 in
      λ later p q. rw (e, more.0) (rest later (omega arith) (omega arith))

  unlock-own :
      (t : LockToken) (now end : ℕ) (s : Store)
      → now < end
      → Owned redis t.key t.token now end s
      → get (unlock redis (some t) now fine s).0 now t.key ≡ none
  unfolding unlock unlock_script eval holds
  unlock-own t now end s h o = ground (
    arith,
    o now (omega arith) h,
    text_eq_refl t.key,
    text_eq_refl t.token,
    redis.get-del s now now t.key t.key (omega arith),
  )

  new_lock-long :
      (key token : Text) (ttl : ℤ) (now : ℕ) (w : Wire) (s : Store) (t : LockToken)
      → (new_lock redis key token ttl now w s).1 ≡ ok (some t)
      → ltb_ℤ ttl (pos 1000000) ≡ false
  unfolding new_lock ttl_millis with_ttl
  new_lock-long key token ttl now w s t h = elim (Bool-cases (ltb_ℤ ttl (pos 1000000))) [
    | inl short ↦ elim (Bool-cases (no_client? w)) [
      | inl gone ↦ cc (rw gone at h)
      | inr there ↦ cc (rw (there, short) at h)
    ]
    | inr long ↦ long
  ]

  locked-got :
      {A : Type 0} (x : Store × Result LockError (Option LockToken)) (t : LockToken)
      (body : LockToken → Store → Store × Result LockError A)
      → x.1 ≡ ok (some t)
      → locked redis x body ≡ body t x.0
  unfolding locked
  locked-got (s, err e) t body h = cc
  locked-got (s, ok none) t body h = cc
  locked-got (s, ok (some u)) t body h = ground arith

  held_through :
      (t : LockToken) (ttl : ℤ) (now : ℕ) (bs : List (List (ℕ × Call) × Wire))
      (last : List (ℕ × Call)) (s : Store)
      → ltb_ℤ ttl (pos 1000000) ≡ false
      → Timely t (pos_part ttl / 1000000) bs
      → elapsed last < pos_part ttl / 1000000
      → All (λ x. Foreign t.key t.token x.1) last
      → Owned redis t.key t.token now (now + pos_part ttl / 1000000) s
      → Owned redis t.key t.token
          (now + ticked bs + elapsed last)
          (now + ticked bs + pos_part ttl / 1000000)
          (after redis (now + ticked bs) last (extending redis t ttl true now bs s))
  held_through t ttl now bs last s long timely soon f o =
      (after-Owned redis last t.key t.token (now + ticked bs)
        (now + ticked bs + pos_part ttl / 1000000) (extending redis t ttl true now bs s)
        (omega arith) f (extending-Owned bs t ttl now s long timely o)).1

  -- `WithLockAutoExtend` that gets the lock holds it until `fn` has ended, however long that takes, as
  -- long as every tick comes within the time to live of the extension before it and its extension
  -- reaches the server and is answered, `fn` ends within the time to live of the last extension, the key
  -- is only touched by calls on locks, and no other call releases or extends it with this token or
  -- forces it open (`ForceUnlock`, `UnlockByKey`): at the end of `fn` the key still has this token; the
  -- release, when it reaches the server and is answered, frees the key, and the caller gets the result
  -- of `fn`.
  pub with_lock_auto_extend-holds :
      {A : Type 0} (key token : Text) (ttl interval : ℤ) (r : Result LockError A) (now : ℕ)
      (w : Wire) (bs : List (List (ℕ × Call) × Wire)) (last : List (ℕ × Call)) (s : Store)
      (t : LockToken)
      → leb_ℤ interval (pos 0) ≡ false
      → (new_lock redis key token ttl now w s).1 ≡ ok (some t)
      → Timely t (pos_part ttl / 1000000) bs
      → elapsed last < pos_part ttl / 1000000
      → All (λ x. Foreign t.key t.token x.1) last
      → let final =
          after redis
            (now + ticked bs)
            last
            (extending redis t ttl true now bs (new_lock redis key token ttl now w s).0) in
        let run =
          with_lock_auto_extend redis key token ttl interval (some r) now w bs last fine s in
        (t ≡ record { key = key; token = token })
        × (get final (now + ticked bs + elapsed last) t.key ≡ some t.token)
        × (get run.0 (now + ticked bs + elapsed last) t.key ≡ none)
        × (run.1 ≡ r)
  unfolding with_lock_auto_extend then_unlock
  with_lock_auto_extend-holds key token ttl interval r now w bs last s t good h timely soon f =
      let got = new_lock-takes redis key token ttl now w s t h in
      let s' = (new_lock redis key token ttl now w s).0 in
      let end = now + ticked bs + elapsed last in
      let held =
        held_through t ttl now bs last s' (new_lock-long key token ttl now w s t h) timely soon f
          (rw got.0 got.1) in
      let body =
        locked-got (new_lock redis key token ttl now w s) t
          (λ u x.
            then_unlock redis u end fine
              (after redis (now + ticked bs) last (extending redis u ttl true now bs x), r))
          h in
      (
        got.0,
        held end (omega arith) (omega arith),
        rw (good, body)
            (unlock-own t end (now + ticked bs + pos_part ttl / 1000000)
              (after redis (now + ticked bs) last (extending redis t ttl true now bs s'))
              (omega arith) held),
        rw (good, body) refl,
      )
