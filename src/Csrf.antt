-- ===== src/Csrf.antt =====
-- middleware/csrf.go: the middlewares that compare a cookie with what the client sends. A request
-- is what gin says of it; random bytes, base64 and the JSON decoder are not this repository's.
pub mod Api
pub mod Paths
pub mod Checks
mod Tests
use xlgo_core.Base.{
  ℕ, ◌+◌, ◌-◌, List, [], ◌∷◌, Bool, true, false, not, ◌&&◌, ◌||◌, Option, none, some, leb, ◌==◌,
  if◌then◌else◌, map, any,
}
use xlgo_core.Base.Text.{Text, codes, text_eq, to_upper}
use xlgo_core.Base.Int.{ℤ, pos, leb_ℤ}

abbrev pub csrf_token_length : ℤ
csrf_token_length = pos 32

abbrev pub csrf_header_name : Text
csrf_header_name = codes "X-CSRF-Token"

abbrev pub csrf_cookie_name : Text
csrf_cookie_name = codes "csrf_token"

abbrev pub csrf_form_field : Text
csrf_form_field = codes "_csrf"

abbrev pub csrf_max_body_bytes : ℤ
csrf_max_body_bytes = pos 1048576

-- A value that a JSON field or the context of gin holds.
pub data Value : Type 0 where
  string : Text → Value
  bool : Bool → Value
  other : Value

-- What `ShouldBindBodyWith` makes of a body of which a number of bytes is read at most.
pub data Bound : Type 0 where
  object : (Text → Option Value) → Bound
  too_large malformed : Bound

pub record Request : Type 0 where
  pub method : Text
  pub path : Text
  pub cookie : Text → Option Text
  pub header : Text → Text
  pub post_form : Text → Text
  pub body : ℤ → Bound
  pub context : Text → Option Value

-- The default error function answers by `response.Fail` and aborts; of another one it is known on which
-- requests it aborts.
pub data ErrorFunc : Type 0 where
  default_csrf_error : ErrorFunc
  custom : (Request → Bool) → ErrorFunc

-- `same_site` is 0 when it is not set, and 2 for Lax.
pub record CsrfConfig : Type 0 where
  pub token_length : ℤ
  pub header_name : Text
  pub cookie_name : Text
  pub form_field : Text
  pub secure : Bool
  pub http_only : Bool
  pub same_site : ℕ
  pub domain : Text
  pub path : Text
  pub max_age : ℤ
  pub session_cookie : Bool
  pub max_body_bytes : ℤ
  pub error_func : Option ErrorFunc
  pub skip_func : Option (Request → Bool)

abbrev pub default_csrf_config : CsrfConfig
default_csrf_config = record {
  token_length = csrf_token_length;
  header_name = csrf_header_name;
  cookie_name = csrf_cookie_name;
  form_field = csrf_form_field;
  secure = false;
  http_only = true;
  same_site = 2;
  domain = [];
  path = codes "/";
  max_age = pos 3600;
  session_cookie = false;
  max_body_bytes = csrf_max_body_bytes;
  error_func = some default_csrf_error;
  skip_func = none;
}

or_default : Text → Text → Text
or_default d [] = d
or_default d (c ∷ s) = c ∷ s

is_zero : ℤ → Bool
is_zero a = leb_ℤ a (pos 0) && leb_ℤ (pos 0) a

-- `normalizeCSRFConfig`
unfoldable pub normalize_csrf_config : CsrfConfig → CsrfConfig
unfolding or_default is_zero
normalize_csrf_config cfg = record cfg {
  token_length = if leb_ℤ cfg.token_length (pos 0) then csrf_token_length else cfg.token_length;
  header_name = or_default csrf_header_name cfg.header_name;
  cookie_name = or_default csrf_cookie_name cfg.cookie_name;
  form_field = or_default csrf_form_field cfg.form_field;
  path = or_default (codes "/") cfg.path;
  same_site = if cfg.same_site == 0 then default_csrf_config.same_site else cfg.same_site;
  max_age =
      if is_zero cfg.max_age && not cfg.session_cookie
      then default_csrf_config.max_age
      else cfg.max_age;
  max_body_bytes =
      if leb_ℤ cfg.max_body_bytes (pos 0) then csrf_max_body_bytes else cfg.max_body_bytes;
  error_func = elim cfg.error_func [ none ↦ some default_csrf_error | some f ↦ some f ];
}

-- `isSafeMethod`
unfoldable pub is_safe_method : Text → Bool
unfolding to_upper text_eq
is_safe_method m =
    any (text_eq (map to_upper m))
      (codes "GET" ∷ codes "HEAD" ∷ codes "OPTIONS" ∷ codes "TRACE" ∷ [])

-- `generateCSRFToken`, on the base64 of so many random bytes, if there are any to have.
unfoldable pub generate_csrf_token : (ℤ → Option Text) → ℤ → Option Text
generate_csrf_token random n = random (if leb_ℤ n (pos 0) then csrf_token_length else n)

-- What becomes of a request: it goes on to the next handler, or is answered here.
pub data Verdict : Type 0 where
  next : Verdict
  error : Option ErrorFunc → Verdict
  body_too_large : Verdict
  missing_cookie missing_header mismatch : Verdict

-- Whether the error function aborts, or panics since it is nil.
unfoldable pub stops : Option ErrorFunc → Request → Bool
stops none r = true
stops (some default_csrf_error) r = true
stops (some (custom aborts)) r = aborts r

-- Whether gin calls the next handler: after a handler that returns without an abort it does.
unfoldable pub goes_on : Request → Verdict → Bool
unfolding stops
goes_on r next = true
goes_on r (error f) = not (stops f r)
goes_on r _ = false

pub record Outcome : Type 0 where
  pub set_cookie : Option Text
  pub csrf_token : Option Text
  pub verdict : Verdict

-- The token of a JSON body, or the verdict that ends the search.
text_or_empty : Option Value → Text
text_or_empty (some (string t)) = t
text_or_empty _ = []

json_token : Text → Bound → Option Text
unfolding text_or_empty
json_token field too_large = none
json_token field malformed = some []
json_token field (object o) = some (text_or_empty (o field))

or_else : Text → Option Text → Option Text
or_else [] later = later
or_else (c ∷ s) later = some (c ∷ s)

-- The header first, then the form, then the body; none for a body that is too large.
unfoldable pub client_token : CsrfConfig → Request → Option Text
unfolding json_token or_else
client_token cfg r =
    or_else (r.header cfg.header_name)
      (or_else (r.post_form cfg.form_field) (json_token cfg.form_field (r.body cfg.max_body_bytes)))

-- The comparison, `subtle.ConstantTimeCompare` being equality.
unfoldable pub matches : Text → Text → Bool
unfolding text_eq
matches [] cookie = false
matches (c ∷ s) cookie = text_eq (c ∷ s) cookie

compared : CsrfConfig → Text → Option Text → Verdict
unfolding matches
compared cfg cookie none = body_too_large
compared cfg cookie (some t) = if matches t cookie then next else error cfg.error_func

with_token : CsrfConfig → Request → Option Text → Text → Outcome
unfolding compared is_safe_method client_token
with_token cfg r set token = record {
  set_cookie = set;
  csrf_token = some token;
  verdict = if is_safe_method r.method then next else compared cfg token (client_token cfg r);
}

no_cookie : CsrfConfig → Request → Option Text → Outcome
unfolding with_token
no_cookie cfg r none = record {
  set_cookie = none;
  csrf_token = none;
  verdict = error cfg.error_func;
}
no_cookie cfg r (some fresh) = with_token cfg r (some fresh) fresh

on_cookie : (ℤ → Option Text) → CsrfConfig → Request → Option Text → Outcome
unfolding with_token no_cookie generate_csrf_token
on_cookie random cfg r (some (c ∷ s)) = with_token cfg r none (c ∷ s)
on_cookie random cfg r _ = no_cookie cfg r (generate_csrf_token random cfg.token_length)

abbrev pub skips : CsrfConfig → Request → Bool
skips cfg r = elim cfg.skip_func [ none ↦ false | some f ↦ f r ]

-- The handler that `CSRF` makes of a normalised configuration.
unfoldable pub csrf_handler : (ℤ → Option Text) → CsrfConfig → Request → Outcome
unfolding on_cookie
csrf_handler random cfg r =
    if skips cfg r
    then record { set_cookie = none; csrf_token = none; verdict = next }
    else on_cookie random cfg r (r.cookie cfg.cookie_name)

-- `CSRF`
unfoldable pub csrf : (ℤ → Option Text) → Option CsrfConfig → Request → Outcome
unfolding csrf_handler normalize_csrf_config
csrf random none = csrf_handler random (normalize_csrf_config default_csrf_config)
csrf random (some cfg) = csrf_handler random (normalize_csrf_config cfg)

is_exempt : Option Value → Bool
is_exempt (some (bool b)) = b
is_exempt _ = false

-- `CSRFWithExempt`: the mark on the context comes before the configured function.
unfoldable pub csrf_with_exempt : (ℤ → Option Text) → Option CsrfConfig → Request → Outcome
unfolding csrf normalize_csrf_config is_exempt
csrf_with_exempt random config =
    let cfg = normalize_csrf_config (elim config [ none ↦ default_csrf_config | some c ↦ c ]) in
    csrf random (
      some (record cfg {
        skip_func = some (λ r. is_exempt (r.context (codes "csrf_exempt")) || skips cfg r);
      }))

-- `DoubleSubmitCookie`; a failure to make a token is not looked at.
issue_cookie : Option Text → Option Text → Outcome
issue_cookie fresh (some (c ∷ s)) = record {
  set_cookie = none;
  csrf_token = some (c ∷ s);
  verdict = next;
}
issue_cookie none _ = record { set_cookie = some []; csrf_token = some []; verdict = next }
issue_cookie (some t) _ = record { set_cookie = some t; csrf_token = some t; verdict = next }

double_verdict : Option Text → Text → Verdict
unfolding text_eq
double_verdict none header = missing_cookie
double_verdict (some cookie) [] = missing_header
double_verdict (some cookie) (c ∷ s) = if text_eq cookie (c ∷ s) then next else mismatch

unfoldable pub double_submit_cookie : (ℤ → Option Text) → Request → Outcome
unfolding is_safe_method issue_cookie double_verdict generate_csrf_token
double_submit_cookie random r =
    if is_safe_method r.method
    then issue_cookie (generate_csrf_token random csrf_token_length) (r.cookie csrf_cookie_name)
    else record {
      set_cookie = none;
      csrf_token = none;
      verdict = double_verdict (r.cookie csrf_cookie_name) (r.header csrf_header_name);
    }
