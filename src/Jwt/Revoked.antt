-- ===== src/Jwt/Revoked.antt =====
-- jwt/jwt.go: a token that was exchanged for a new one is refused from then on.
use xlgo_core.Base.{
  ℕ, ◌+◌, ◌-◌, ◌≤◌, ◌≡◌, ◌⊎◌, refl, subst, ap, ◌∙◌, List, [], ◌∷◌, Bool, true, false, Option, some,
  Result, ok, err, arith, All, Bool-cases, inl, inr,
}
use xlgo_core.Base.Text.{Text, codes, text_eq}
use xlgo_core.Jwt.{
  Golang, Keys, Wire, no_client, lost, answer_lost, fine, Claims, Config, JwtError, ParseError,
  Options, millisecond, before_end, is_blank, blacklist_key, add, add_wired, is_blacklisted,
  verdict, check_token_blacklist, checked, parse_options, hmac_keyfunc, fail_closed,
  BlacklistPolicy, Alg, parse_token_with_blacklist_policy, parse_token, revoke, issued_after,
  refreshed, refresh_token,
}

-- A call of `Add` by anybody, at an instant.
pub record Revocation : Type 0 where
  pub wire : Wire
  pub jti : Text
  pub expiry : ℕ
  pub time : ℕ

abbrev pub refused : {A : Type 0} → Result JwtError A → Bool
refused (ok a) = false
refused (err e) = true

refused_or : {A : Type 0} (r : Result JwtError A) → (refused r ≡ true) ⊎ ((a : A) × (r ≡ ok a))
refused_or (err e) = inl refl
refused_or (ok a) = inr (a, refl)

ended : (x e : ℕ) → e ≤ x → before_end x (some e) ≡ true → ⊥
ended x e late h = ground arith

blacklist_key-text_eq : (j k : Text) → text_eq (blacklist_key j) (blacklist_key k) ≡ text_eq j k
unfolding text_eq
blacklist_key-text_eq j k = refl

module _ (golang : Golang) (keys : Keys) where
  open golang use {sign, parse, content}
  open keys use {Store, exists, set}

  abbrev pub revocations : List Revocation → Store → Store
  revocations [] s = s
  revocations (r ∷ rs) s = revocations rs (add golang keys r.wire r.jti r.expiry r.time s).0

  add_wired-exists :
      (w : Wire) (j k : Text) (ttl now x : ℕ) (s : Store)
      → text_eq j k ≡ false
      → exists (add_wired golang keys w j ttl now s).0 x (blacklist_key k)
        ≡ exists s x (blacklist_key k)
  unfolding add_wired
  add_wired-exists no_client j k ttl now x s h = refl
  add_wired-exists lost j k ttl now x s h = refl
  add_wired-exists answer_lost j k ttl now x s h = ground (
    arith,
    keys.exists-set_other s now x (blacklist_key j) (blacklist_key k) (codes "1") ttl,
    blacklist_key-text_eq j k,
  )
  add_wired-exists fine j k ttl now x s h = ground (
    arith,
    keys.exists-set_other s now x (blacklist_key j) (blacklist_key k) (codes "1") ttl,
    blacklist_key-text_eq j k,
  )

  add-exists :
      (w : Wire) (j k : Text) (expiry now x : ℕ) (s : Store)
      → text_eq j k ≡ false
      → exists (add golang keys w j expiry now s).0 x (blacklist_key k)
        ≡ exists s x (blacklist_key k)
  unfolding add
  add-exists w j k expiry now x s h =
      ground (arith, add_wired-exists w j k (expiry - now) now x s h)

  revocations-exists :
      (rs : List Revocation) (k : Text) (x : ℕ) (s : Store)
      → All (λ r. text_eq r.jti k ≡ false) rs
      → exists (revocations rs s) x (blacklist_key k) ≡ exists s x (blacklist_key k)
  revocations-exists [] k x s h = refl
  revocations-exists (r ∷ rs) k x s (h, hs) =
      revocations-exists rs k x (add golang keys r.wire r.jti r.expiry r.time s).0 hs
      ∙ add-exists r.wire r.jti k r.expiry r.time x s h

  -- A revocation that reports success is seen until the token ends.
  add_wired-done :
      (w : Wire) (k : Text) (e now x : ℕ) (s : Store)
      → (add_wired golang keys w k (e - now) now s).1 ≡ ok tt
      → now ≤ x
      → x + millisecond ≤ e
      → exists (add_wired golang keys w k (e - now) now s).0 x (blacklist_key k) ≡ true
  unfolding add_wired
  add_wired-done no_client k e now x s d h m = cc
  add_wired-done lost k e now x s d h m = ground arith
  add_wired-done answer_lost k e now x s d h m = ground arith
  add_wired-done fine k e now x s d h m =
      ground (arith, keys.exists-set_self s now x (blacklist_key k) (codes "1") (e - now))

  add-done :
      (w : Wire) (k : Text) (e now x : ℕ) (s : Store)
      → is_blank k ≡ false
      → (add golang keys w k e now s).1 ≡ ok tt
      → now ≤ x
      → x + millisecond ≤ e
      → exists (add golang keys w k e now s).0 x (blacklist_key k) ≡ true
  unfolding add
  add-done w k e now x s solid d h m =
      rw solid (add_wired-done w k e now x s (rw (solid, add) at d) h m)

  revoke-done :
      (w : Wire) (c : Claims) (e now x : ℕ) (s : Store)
      → c.expires_at ≡ some e
      → (revoke golang keys w c now s).1 ≡ ok tt
      → now ≤ x
      → x + millisecond ≤ e
      → (is_blank c.jti ≡ false)
        × (exists (revoke golang keys w c now s).0 x (blacklist_key c.jti) ≡ true)
  unfolding revoke
  revoke-done w c e now x s q d h m = elim (Bool-cases (is_blank c.jti)) [
    | inl blank ↦ cc (rw (blank, revoke) at d)
    | inr solid ↦
        (solid, rw (solid, q) (add-done w c.jti e now x s solid (rw (solid, q, revoke) at d) h m))
  ]

  checked-content :
      (policy : BlacklistPolicy) (w : Wire) (now : ℕ) (s : Store) (r : Result ParseError Claims)
      (c : Claims)
      → checked golang keys policy w now s r ≡ ok c
      → r ≡ ok c
  unfolding checked
  checked-content policy w now s (err e) c h = cc
  checked-content policy w now s (ok d) c h = ground arith

  parse_token-content :
      (cfg : Option Config) (token : Text) (w : Wire) (now : ℕ) (s : Store) (c : Claims)
      → parse_token golang keys cfg token w now s ≡ ok c
      → content token ≡ some c
  unfolding parse_token parse_token_with_blacklist_policy
  parse_token-content cfg token w now s c h =
      golang.parse-content (parse_options true cfg) (hmac_keyfunc cfg) now token c (
        checked-content fail_closed w now s
          (parse (parse_options true cfg) (hmac_keyfunc cfg) now token) c h)

  -- A check that fails closed does not pass a token whose key is there, even without an answer.
  verdict-refused :
      (w : Wire) (k : Text) (x : ℕ) (s : Store)
      → exists s x (blacklist_key k) ≡ true
      → refused (verdict golang keys fail_closed (is_blacklisted golang keys w k x s)) ≡ true
  unfolding verdict is_blacklisted
  verdict-refused no_client k x s h = refl
  verdict-refused lost k x s h = refl
  verdict-refused answer_lost k x s h = refl
  verdict-refused fine k x s h = rw h refl

  check-refused :
      (w : Wire) (c : Claims) (k : Text) (x : ℕ) (s : Store)
      → c.jti ≡ k
      → is_blank k ≡ false
      → exists s x (blacklist_key k) ≡ true
      → refused (check_token_blacklist golang keys fail_closed w c x s) ≡ true
  unfolding check_token_blacklist is_blank
  check-refused w c [] x s q solid h = cc
  check-refused w c (y ∷ k) x s q solid h = rw q (verdict-refused w (y ∷ k) x s h)

  passed-refused :
      (r : Result JwtError (Unit {0})) (c : Claims)
      → refused r ≡ true
      → refused (elim r as (λ x. Result JwtError Claims) [ err e ↦ err e | ok u ↦ ok c ]) ≡ true
  passed-refused (err e) c h = refl
  passed-refused (ok u) c h = cc

  checked-refused :
      (w : Wire) (x : ℕ) (s : Store) (r : Result ParseError Claims) (c : Claims)
      → ((d : Claims) → r ≡ ok d → d ≡ c)
      → is_blank c.jti ≡ false
      → exists s x (blacklist_key c.jti) ≡ true
      → refused (checked golang keys fail_closed w x s r) ≡ true
  unfolding checked
  checked-refused w x s (err e) c same solid h = refl
  checked-refused w x s (ok d) c same solid h =
      passed-refused (check_token_blacklist golang keys fail_closed w d x s) d
        (check-refused w d c.jti x s (ap Claims.jti (same d refl)) solid h)

  parsed_same :
      (o : Options) (key : Alg → Result JwtError Text) (x : ℕ) (token : Text) (c d : Claims)
      → content token ≡ some c
      → parse o key x token ≡ ok d
      → d ≡ c
  parsed_same o key x token c d h k = let q = golang.parse-content o key x token d k in cc

  parse_token-refused :
      (cfg : Option Config) (token : Text) (w : Wire) (x : ℕ) (s : Store) (c : Claims)
      → content token ≡ some c
      → is_blank c.jti ≡ false
      → exists s x (blacklist_key c.jti) ≡ true
      → refused (parse_token golang keys cfg token w x s) ≡ true
  unfolding parse_token parse_token_with_blacklist_policy
  parse_token-refused cfg token w x s c h solid k =
      checked-refused w x s (parse (parse_options true cfg) (hmac_keyfunc cfg) x token) c
        (λ d q. parsed_same (parse_options true cfg) (hmac_keyfunc cfg) x token c d h q) solid k

  parse_token-expired :
      (cfg : Option Config) (token : Text) (w : Wire) (x e : ℕ) (s : Store) (c : Claims)
      → content token ≡ some c
      → c.expires_at ≡ some e
      → e ≤ x
      → refused (parse_token golang keys cfg token w x s) ≡ true
  unfolding parse_options
  parse_token-expired cfg token w x e s c h q late =
      elim (refused_or (parse_token golang keys cfg token w x s)) [
        | inl no' ↦ no'
        | inr (d, k) ↦
            let p =
              checked-content fail_closed w x s
                (parse (parse_options true cfg) (hmac_keyfunc cfg) x token) d
                (unfold parse_token parse_token_with_blacklist_policy in k) in
            let same = parsed_same (parse_options true cfg) (hmac_keyfunc cfg) x token c d h p in
            let live : before_end x d.expires_at ≡ true =
              golang.parse-in_time (parse_options true cfg) (hmac_keyfunc cfg) x token d refl p in
            absurd (
              ended x e late
                (subst (λ y. before_end x y ≡ true) (ap Claims.expires_at same ∙ q) live))
      ]

  issued_after-done :
      (cfg : Option Config) (c : Claims) (jti : Option Text) (last : ℕ)
      (x : Store × Result JwtError (Unit {0})) (s' : Store) (new : Text)
      → issued_after golang keys cfg c jti last x ≡ (s', ok new)
      → (x.1 ≡ ok tt) × (x.0 ≡ s')
  unfolding issued_after
  issued_after-done cfg c jti last (s, err e) s' new h = cc
  issued_after-done cfg c jti last (s, ok tt) s' new h = (refl, ap (λ y. y.0) h)

  refreshed-done :
      (cfg : Option Config) (jti : Option Text) (w : Wire) (later last : ℕ) (s : Store)
      (r : Result JwtError Claims) (s' : Store) (new : Text)
      → refreshed golang keys cfg jti w later last s r ≡ (s', ok new)
      → (d : Claims) × (r ≡ ok d)
        × ((revoke golang keys w d later s).1 ≡ ok tt)
        × ((revoke golang keys w d later s).0 ≡ s')
  unfolding refreshed
  refreshed-done cfg jti w later last s (err e) s' new h = cc
  refreshed-done cfg jti w later last s (ok d) s' new h =
      let run = issued_after-done cfg d jti last (revoke golang keys w d later s) s' new h in
      (d, refl, run.0, run.1)

  refreshed-revokes :
      (cfg cfg' : Option Config) (token new : Text) (jti : Option Text) (w w' v : Wire)
      (now later last e x : ℕ) (s s' : Store) (c : Claims) (rs : List Revocation)
      → refreshed golang keys cfg jti w' later last s (parse_token golang keys cfg token w now s)
        ≡ (s', ok new)
      → content token ≡ some c
      → c.expires_at ≡ some e
      → All (λ r. text_eq r.jti c.jti ≡ false) rs
      → later ≤ x
      → (x + millisecond ≤ e) ⊎ (e ≤ x)
      → refused (parse_token golang keys cfg' token v x (revocations rs s')) ≡ true
  refreshed-revokes cfg cfg' token new jti w w' v now later last e x s s' c rs h k q hs m
        (inr late) =
      parse_token-expired cfg' token v x e (revocations rs s') c k q late
  refreshed-revokes cfg cfg' token new jti w w' v now later last e x s s' c rs h k q hs m
        (inl soon) =
      let (d, p, done, moved) =
        refreshed-done cfg jti w' later last s (parse_token golang keys cfg token w now s) s' new
          h in
      let same : d ≡ c = let r = parse_token-content cfg token w now s d p in cc in
      let seen = revoke-done w' d e later x s (ap Claims.expires_at same ∙ q) done m soon in
      parse_token-refused cfg' token v x (revocations rs s') c k
        (subst (λ y. is_blank y.jti ≡ false) same seen.0)
        (revocations-exists rs c.jti x s' hs
          ∙ subst (λ y. exists y x (blacklist_key c.jti) ≡ true) moved
              (subst
                (λ y. exists (revoke golang keys w' d later s).0 x (blacklist_key y.jti) ≡ true)
                same seen.1))

  -- After a successful refresh the old token is refused by every `ParseToken`, at whatever state the
  -- answers of Redis arrive and whatever other tokens are revoked in between: from the revocation on
  -- until a millisecond before the token ends, and from its end on. (In that millisecond the key may
  -- be gone already, since the client rounds its time to live down.)
  pub refresh_token-revokes :
      (cfg cfg' : Option Config) (token new : Text) (jti : Option Text) (w w' v : Wire)
      (now later last e x : ℕ) (s s' : Store) (c : Claims) (rs : List Revocation)
      → refresh_token golang keys cfg token jti w w' now later last s ≡ (s', ok new)
      → content token ≡ some c
      → c.expires_at ≡ some e
      → All (λ r. text_eq r.jti c.jti ≡ false) rs
      → later ≤ x
      → (x + millisecond ≤ e) ⊎ (e ≤ x)
      → refused (parse_token golang keys cfg' token v x (revocations rs s')) ≡ true
  unfolding refresh_token
  refresh_token-revokes cfg cfg' token new jti w w' v now later last e x s s' c rs h k q hs m z =
      refreshed-revokes cfg cfg' token new jti w w' v now later last e x s s' c rs h k q hs m z
