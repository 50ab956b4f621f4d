-- ===== src/Lock/Tests.antt =====
-- cache/lock.go on a server made of a function from keys, and the theorems on small histories.
use xlgo_core.Base.{
  ◌∙◌, ap, ℕ, ◌+◌, ◌≡◌, refl, List, [], ◌∷◌, true, false, Option, none, some, ltb, if◌then◌else◌,
  ok, arith, inl, inr, ◌≢◌, Bool-cases,
}
use xlgo_core.Base.Text.{Text, text_eq, text_eq_iff}
use xlgo_core.Base.Int.{ℤ, pos}
use xlgo_core.Lock.{
  Wire, with_ttl, ttl_millis, eval, lock_script, acquired, Redis, lost, fine, LockToken, new_lock,
}
use xlgo_core.Lock.Exclusion.{Call, locks, unlocks, Owned}
use xlgo_core.Lock.Sessions.{new_lock-exclusive, after, granted}
use xlgo_core.Lock.Guarded.{Attempt, extending, with_lock_auto_extend}
use xlgo_core.Lock.Guarded.Extension.{with_lock_auto_extend-holds}

abbrev Keys : Type 0
Keys = Text → Option (Text × ℕ)

abbrev alive : ℕ → Option (Text × ℕ) → Option Text
alive now none = none
alive now (some (v, end)) = if ltb now end then some v else none

abbrev expire_at : ℕ → ℕ → Option (Text × ℕ) → Option (Text × ℕ)
expire_at now end none = none
expire_at now end (some (v, e)) = if ltb now e then some (v, end) else none

abbrev set_at : Text → Option (Text × ℕ) → Keys → Keys
set_at k x s j = if text_eq k j then x else s j

set_at-get :
    (now : ℕ) (k j : Text) (x : Option (Text × ℕ)) (s : Keys)
    → alive now (set_at k x s j) ≡ (if text_eq k j then alive now x else alive now (s j))
set_at-get now k j x s = elim (Bool-cases (text_eq k j)) [
  | inl same ↦ rw same refl
  | inr other ↦ rw other refl
]

expire_at-alive :
    (now later ttl : ℕ) (x : Option (Text × ℕ))
    → alive later (expire_at now (now + ttl) x)
      ≡ (if ltb later (now + ttl) then alive now x else none)
expire_at-alive now later ttl none = elim (Bool-cases (ltb later (now + ttl))) [
  | inl a ↦ rw a refl
  | inr b ↦ rw b refl
]
expire_at-alive now later ttl (some (v, e)) = elim (Bool-cases (ltb now e)) [
  | inl a ↦ rw a refl
  | inr b ↦
      rw b (elim (Bool-cases (ltb later (now + ttl))) [ inl c ↦ rw c refl | inr d ↦ rw d refl ])
]

-- A server of keys with the time each one ends.
abbrev keys_redis : Redis
keys_redis = record {
  Store = Keys;
  get = λ s now k. alive now (s k);
  set_px = λ s now k v ttl. set_at k (some (v, now + ttl)) s;
  del = λ s now k. set_at k none s;
  pexpire = λ s now k ttl. set_at k (expire_at now (now + ttl) (s k)) s;
  get-set_px = λ s now later k j v ttl h. set_at-get later k j (some (v, now + ttl)) s;
  get-del = λ s now later k j h. set_at-get later k j none s;
  get-pexpire = λ s now later k j ttl h.
      set_at-get later k j (expire_at now (now + ttl) (s k)) s
      ∙ ap (λ x. if text_eq k j then x else alive later (s j))
          (expire_at-alive now later ttl (s k));
}

abbrev empty : Keys
empty k = none

-- Keys and tokens are short texts here.
abbrev job : Text
job = 106 ∷ []

abbrev mine : Text
mine = 1 ∷ []

abbrev theirs : Text
theirs = 2 ∷ []

-- Five milliseconds, with a fraction that PX does not see.
abbrev five_ms : ℤ
five_ms = pos 5400000

abbrev others : List (ℕ × Call)
others =
    (1, locks job theirs five_ms fine)
    ∷ (1, unlocks (record { key = job; token = theirs }) fine)
    ∷ (2, locks job theirs five_ms lost)
    ∷ []

abbrev token : LockToken
token = record { key = job; token = mine }

abbrev taken : Keys
taken = (new_lock keys_redis job mine five_ms 100 fine empty).0

new_lock-taken : (new_lock keys_redis job mine five_ms 100 fine empty).1 ≡ ok (some token)
unfolding new_lock with_ttl ttl_millis eval lock_script acquired
new_lock-taken = refl

theirs-mine : theirs ≢ mine
unfolding text_eq
theirs-mine e = cc ((text_eq_iff theirs mine).1 e)

new_lock-exclusive_example :
    (granted keys_redis job 100 others taken ≡ false)
    × Owned keys_redis job mine 104 105 (after keys_redis 100 others taken)
new_lock-exclusive_example =
    new_lock-exclusive keys_redis job mine five_ms 100 fine empty token new_lock-taken others
      (omega arith) (tt, (inr theirs-mine, (tt, tt)))

abbrev tries : List Attempt
tries =
    record { token = theirs; wire = fine; waited = 2; cancelled = false }
    ∷ record { token = theirs; wire = fine; waited = 2; cancelled = false }
    ∷ []

abbrev beats : List (List (ℕ × Call) × Wire)
beats =
    ((1, locks job theirs five_ms fine) ∷ (3, locks job theirs five_ms fine) ∷ [], fine)
    ∷ ([], fine)
    ∷ []

with_lock_auto_extend-holds_example :
    let final =
      after keys_redis 104 others (extending keys_redis token five_ms true 100 beats taken) in
    let run =
      with_lock_auto_extend keys_redis job mine five_ms
        (pos 4000000)
        (some (ok true))
        100
        fine
        beats
        others
        fine
        empty in
    (token ≡ token)
    × (alive 108 (final job) ≡ some mine)
    × (alive 108 (run.0 job) ≡ none)
    × (run.1 ≡ ok true)
with_lock_auto_extend-holds_example =
    with_lock_auto_extend-holds keys_redis job mine five_ms (pos 4000000) (ok true) 100 fine beats
      others empty token refl new_lock-taken
      ((omega arith, (tt, (tt, tt)), refl, (omega arith, tt, refl, tt))) (omega arith)
      (tt, (inr theirs-mine, (tt, tt)))
