-- ===== src/Jwt/Toy.antt =====
-- A library that knows two tokens, and a store of keys: what the tests of Jwt run on.
use native.Mathlib.Decide.{ℕ_discrete}
use xlgo_core.Base.{
  ℕ, ◌+◌, ◌≤◌, ◌≡◌, refl, ap, sym, subst, [], Bool, true, false, not, ◌&&◌, ◌||◌, Option, none,
  some, ltb, if◌then◌else◌, Result, ok, err, arith, Bool-cases, inl, inr,
}
use xlgo_core.Base.Text.{Text, codes, text_eq, text_eq_iff, text_eq_refl}
use xlgo_core.Base.Int.{pos}
use xlgo_core.Jwt.{
  Golang, Keys, Alg, hs256, hs384, hs512, other_hmac, none_hmac, Claims, Config, JwtError, Options,
  ParseError, millisecond, before_end, after_start,
}

abbrev pub config : Config
config = record {
  secret = codes "s3";
  jwt_issuer = [];
  algorithm = codes "hs256";
  expire = pos 3000000000;
  refresh_expire = pos 5000000000;
}

-- Issued at 10 s for 3 s, and at 11 s for 5 s.
abbrev pub old_claims : Claims
old_claims = record {
  user_id = 7;
  username = codes "ann";
  role = codes "ops";
  user_type = codes "admin";
  jti = codes "j1";
  expires_at = some 13000000000;
  issued_at = some 10000000000;
  not_before = some 10000000000;
  issuer = codes "xlgo";
  id = codes "j1";
}

abbrev pub new_claims : Claims
new_claims = record old_claims {
  jti = codes "j2";
  expires_at = some 16000000000;
  issued_at = some 11000000000;
  not_before = some 11000000000;
  id = codes "j2";
}

abbrev pub old_token : Text
old_token = codes "old"

abbrev pub new_token : Text
new_token = codes "new"

unfoldable pub Claims-discrete : Discrete Claims
Claims-discrete = hlevel (ℕ_discrete)

-- A signature of HS256 on one of the two claims; a token without its secret.
abbrev pick : {c : Claims} → Dec (c ≡ old_claims) → Dec (c ≡ new_claims) → Option Text
pick (yes _) d = some old_token
pick (no _) (yes _) = some new_token
pick (no _) (no _) = none

abbrev known : Claims → Option Text
known c = pick (Claims-discrete c old_claims) (Claims-discrete c new_claims)

abbrev toy_sign : Alg → Text → Claims → Option Text
toy_sign hs256 k c = known c
toy_sign _ k c = none

abbrev toy_content : Text → Option Claims
toy_content token =
    if text_eq token old_token
    then some old_claims
    else if text_eq token new_token
    then some new_claims
    else none

abbrev sound : Options → ℕ → Claims → Bool
sound o now c =
    o.methods hs256
    && (text_eq c.issuer o.issuer
        && (not o.validates_claims
            || (before_end now c.expires_at && after_start now c.not_before)))

abbrev too_late : ParseError
too_late = record { expired = true; malformed = false; not_valid_yet = false; from_key = none }

abbrev judge : Options → Result JwtError Text → ℕ → Option Claims → Result ParseError Claims
judge o key now none = err too_late
judge o (err e) now (some c) = err too_late
judge o (ok k) now (some c) = if sound o now c then ok c else err too_late

pub judge-ok :
    (o : Options) (key : Result JwtError Text) (now : ℕ) (m : Option Claims) (c : Claims)
    → judge o key now m ≡ ok c
    → m ≡ some c
judge-ok o key now none c h = cc
judge-ok o (err e) now (some d) c h = cc
judge-ok o (ok k) now (some d) c h = ground arith

sound-in_time :
    (o : Options) (now : ℕ) (c : Claims)
    → o.validates_claims ≡ true
    → sound o now c ≡ true
    → before_end now c.expires_at ≡ true
sound-in_time o now c v h = ground arith

pub judge-in_time :
    (o : Options) (key : Result JwtError Text) (now : ℕ) (m : Option Claims) (c : Claims)
    → o.validates_claims ≡ true
    → judge o key now m ≡ ok c
    → before_end now c.expires_at ≡ true
judge-in_time o key now none c v h = cc
judge-in_time o (err e) now (some d) c v h = cc
judge-in_time o (ok k) now (some d) c v h = elim (Bool-cases (sound o now d)) [
  | inl good ↦
      let same : d ≡ c = ground (arith, h, good) in
      subst (λ y. before_end now y.expires_at ≡ true) same (sound-in_time o now d v good)
  | inr bad ↦ cc (rw bad at h)
]

pick-content :
    (c : Claims) (d : Dec (c ≡ old_claims)) (d' : Dec (c ≡ new_claims)) (token : Text)
    → pick d d' ≡ some token
    → toy_content token ≡ some c
unfolding text_eq
pick-content c (yes e) d' token h =
    let q : old_token ≡ token = cc in subst (λ t. toy_content t ≡ some c) q (ap some (sym e))
pick-content c (no _) (yes e) token h =
    let q : new_token ≡ token = cc in subst (λ t. toy_content t ≡ some c) q (ap some (sym e))
pick-content c (no _) (no _) token h = cc

judge_sound :
    (o : Options) (key : Result JwtError Text) (k : Text) (now : ℕ) (m : Option Claims) (c : Claims)
    → m ≡ some c
    → key ≡ ok k
    → o.methods hs256 ≡ true
    → c.issuer ≡ o.issuer
    → before_end now c.expires_at ≡ true
    → after_start now c.not_before ≡ true
    → judge o key now m ≡ ok c
judge_sound o key k now m c e q mo i b a =
    rw (e, q) (ground (arith, mo, b, a, (text_eq_iff c.issuer o.issuer).1 i))

pub toy-parse-sign :
    (o : Options) (key : Alg → Result JwtError Text) (now : ℕ) (a : Alg) (k token : Text)
    (c : Claims)
    → toy_sign a k c ≡ some token
    → key a ≡ ok k
    → o.methods a ≡ true
    → c.issuer ≡ o.issuer
    → before_end now c.expires_at ≡ true
    → after_start now c.not_before ≡ true
    → judge o (key hs256) now (toy_content token) ≡ ok c
toy-parse-sign o key now hs256 k token c h q m i b a =
    judge_sound o (key hs256) k now (toy_content token) c
      (pick-content c (Claims-discrete c old_claims) (Claims-discrete c new_claims) token h) q m i b
      a
toy-parse-sign o key now hs384 k token c h q m i b a = cc
toy-parse-sign o key now hs512 k token c h q m i b a = cc
toy-parse-sign o key now other_hmac k token c h q m i b a = cc
toy-parse-sign o key now none_hmac k token c h q m i b a = cc

abbrev pub toy : Golang
toy = record {
  sign = toy_sign;
  parse = λ o key now token. judge o (key hs256) now (toy_content token);
  content = toy_content;
  parse-content = λ o key now token c h. judge-ok o (key hs256) now (toy_content token) c h;
  parse-in_time =
      λ o key now token c v h. judge-in_time o (key hs256) now (toy_content token) c v h;
  parse-sign =
      λ o key now a k token c h q m i b d. toy-parse-sign o key now a k token c h q m i b d;
}

abbrev pub Ends : Type 0
Ends = Text → Option ℕ

abbrev alive : ℕ → Option ℕ → Bool
alive now none = false
alive now (some end) = ltb now end

abbrev pub set_end : Text → ℕ → Ends → Ends
set_end k end s j = if text_eq k j then some end else s j

pub ends_self :
    (s : Ends) (now later : ℕ) (k : Text) (ttl : ℕ)
    → later + millisecond ≤ now + ttl
    → alive later (set_end k (now + ttl) s k) ≡ true
ends_self s now later k ttl h = rw text_eq_refl (ground arith)

pub ends-other :
    (s : Ends) (later end : ℕ) (k j : Text)
    → text_eq k j ≡ false
    → alive later (set_end k end s j) ≡ alive later (s j)
ends-other s later end k j h = rw h refl

abbrev pub ends : Keys
ends = record {
  Store = Ends;
  exists = λ s now k. alive now (s k);
  set = λ s now k v ttl. set_end k (now + ttl) s;
  exists-set_self = λ s now later k v ttl h m. ends_self s now later k ttl m;
  exists-set_other = λ s now later k j v ttl h. ends-other s later (now + ttl) k j h;
}

abbrev pub nothing : Ends
nothing k = none
