-- ===== src/Csrf/Checks.antt =====
-- middleware/csrf.go: which requests the cookie middlewares let through.
use xlgo_core.Base.{
  ℕ, ◌≡◌, ◌≢◌, ◌↔◌, refl, ap, [], ◌∷◌, false, Option, none, some, arith, true, Bool-cases, inl, inr,
  ◌⊎◌,
}
use xlgo_core.Base.Text.{Text, text_eq, text_eq_iff}
use xlgo_core.Base.Int.{ℤ}
use xlgo_core.Csrf.{
  Request, CsrfConfig, Value, string, bool, Bound, object, too_large, malformed, text_or_empty,
  json_token, or_else, stops, goes_on, normalize_csrf_config, is_safe_method, client_token, matches,
  compared, with_token, on_cookie, skips, csrf_handler, csrf, next, double_submit_cookie,
  double_verdict, csrf_cookie_name, csrf_header_name,
}

-- The client's body is an object with the token as a text.
abbrev pub Carries : Text → Bound → Text → Type 0
Carries field b t = (o : Text → Option Value) × (b ≡ object o) × (o field ≡ some (string t))

-- The client sends the token in its header; or, with no header, in its form; or, with neither, as a
-- text field of an object in its body.
abbrev pub Sends : CsrfConfig → Request → Text → Type 0
Sends cfg r t =
    (r.header cfg.header_name ≡ t)
    ⊎ (((r.header cfg.header_name ≡ []) × (r.post_form cfg.form_field ≡ t))
        ⊎ ((r.header cfg.header_name ≡ [])
            × (r.post_form cfg.form_field ≡ [])
            × Carries cfg.form_field (r.body cfg.max_body_bytes) t))

text_or_empty_iff :
    (x : Option Value) (c : ℕ) (s : Text) → (text_or_empty x ≡ c ∷ s) ↔ (x ≡ some (string (c ∷ s)))
unfolding text_or_empty
text_or_empty_iff none c s = (λ h. cc, λ h. cc)
text_or_empty_iff (some (string t)) c s = (λ h. ap (λ u. some (string u)) h, λ h. cc)
text_or_empty_iff (some (bool b)) c s = (λ h. cc, λ h. cc)
text_or_empty_iff (some _) c s = (λ h. cc, λ h. cc)

json_token_iff :
    (field : Text) (b : Bound) (c : ℕ) (s : Text)
    → (json_token field b ≡ some (c ∷ s)) ↔ Carries field b (c ∷ s)
unfolding json_token
json_token_iff field too_large c s = (λ h. absurd (cc h), λ (o, e, k). absurd (cc e))
json_token_iff field malformed c s = (λ h. absurd (cc h), λ (o, e, k). absurd (cc e))
json_token_iff field (object f) c s = (
  λ h. (f, refl, (text_or_empty_iff (f field) c s).0 (cc h)),
  λ (o, e, k). ap some ((text_or_empty_iff (f field) c s).1 (cc (e, k))),
)

from_body :
    (b : Bound) (field : Text) (c : ℕ) (s h p : Text)
    → (or_else h (or_else p (json_token field b)) ≡ some (c ∷ s))
      ↔ ((h ≡ c ∷ s) ⊎ (((h ≡ []) × (p ≡ c ∷ s)) ⊎ ((h ≡ []) × (p ≡ []) × Carries field b (c ∷ s))))
unfolding or_else
from_body b field c s [] [] = (
  λ e. inr (inr (refl, refl, (json_token_iff field b c s).0 e)),
  λ e. elim e [
    | inl x ↦ absurd (cc x)
    | inr y ↦ elim y [ inl z ↦ absurd (cc z.1) | inr z ↦ (json_token_iff field b c s).1 z.2 ]
  ],
)
from_body b field c s [] (d ∷ p) = (
  λ e. inr (inl (refl, cc e)),
  λ e. elim e [
    | inl x ↦ absurd (cc x)
    | inr y ↦ elim y [ inl z ↦ ap some z.1 | inr z ↦ absurd (cc z.1) ]
  ],
)
from_body b field c s (d ∷ h) p = (
  λ e. inl (cc e),
  λ e. elim e [
    | inl x ↦ ap some x
    | inr y ↦ elim y [ inl z ↦ absurd (cc z.0) | inr z ↦ absurd (cc z.0) ]
  ],
)

client_token_iff :
    (cfg : CsrfConfig) (r : Request) (c : ℕ) (s : Text)
    → (client_token cfg r ≡ some (c ∷ s)) ↔ Sends cfg r (c ∷ s)
unfolding client_token
client_token_iff cfg r c s =
    from_body (r.body cfg.max_body_bytes) cfg.form_field c s (r.header cfg.header_name)
      (r.post_form cfg.form_field)

compared_iff :
    (cfg : CsrfConfig) (r : Request) (c : ℕ) (s : Text) (t : Option Text)
    → stops cfg.error_func r ≡ true
    → (goes_on r (compared cfg (c ∷ s) t) ≡ true) ↔ (t ≡ some (c ∷ s))
unfolding compared matches goes_on
compared_iff cfg r c s none stop = (λ h. cc, λ e. cc)
compared_iff cfg r c s (some []) stop = (λ h. cc (rw stop at h), λ e. cc)
compared_iff cfg r c s (some (d ∷ t)) stop = elim (Bool-cases (text_eq (d ∷ t) (c ∷ s))) [
  | inl same ↦ (λ h. ap some ((text_eq_iff (d ∷ t) (c ∷ s)).0 same), λ e. rw same refl)
  | inr apart ↦
      (λ h. cc (rw (apart, stop) at h), λ e. ground (arith, apart, text_eq_iff (d ∷ t) (c ∷ s), e))
]

-- A request that is not skipped, whose method is not safe and which brings a cookie that is not empty,
-- under an error function that aborts on it, goes on exactly if its header is the cookie's token; or
-- its header is empty and its form has that token; or both are empty and its body is an object with
-- that token as a text. No new cookie is set.
pub csrf_iff :
    (random : ℤ → Option Text) (config : CsrfConfig) (r : Request) (c : ℕ) (s : Text)
    → skips (normalize_csrf_config config) r ≡ false
    → is_safe_method r.method ≡ false
    → r.cookie (normalize_csrf_config config).cookie_name ≡ some (c ∷ s)
    → stops (normalize_csrf_config config).error_func r ≡ true
    → ((goes_on r (csrf random (some config) r).verdict ≡ true)
        ↔ Sends (normalize_csrf_config config) r (c ∷ s))
      × ((csrf random (some config) r).set_cookie ≡ none)
unfolding csrf csrf_handler on_cookie with_token
csrf_iff random config r c s noskip unsafe cookie stop =
    let cfg = normalize_csrf_config config in
    let sent = client_token_iff cfg r c s in
    let passed = compared_iff cfg r c s (client_token cfg r) stop in
    rw (noskip, cookie, unsafe) ((λ h. sent.0 (passed.0 h), λ h. passed.1 (sent.1 h)), refl)

double_verdict_iff :
    (cookie : Option Text) (header : Text)
    → (double_verdict cookie header ≡ next) ↔ ((header ≢ []) × (cookie ≡ some header))
unfolding double_verdict
double_verdict_iff none header = (λ h. cc, λ (ne, e). cc)
double_verdict_iff (some t) [] = (λ h. cc, λ (ne, e). absurd (ne refl))
double_verdict_iff (some t) (c ∷ s) = elim (Bool-cases (text_eq t (c ∷ s))) [
  | inl same ↦ (λ h. (λ e. cc, ap some ((text_eq_iff t (c ∷ s)).0 same)), λ k. rw same refl)
  | inr apart ↦
      (λ h. cc (rw apart at h), λ (ne, e). ground (arith, apart, text_eq_iff t (c ∷ s), e))
]

-- The double submission lets a request with a method that is not safe through exactly if its header
-- is not empty and its cookie is there with the same value.
pub double_submit_cookie_iff :
    (random : ℤ → Option Text) (r : Request)
    → is_safe_method r.method ≡ false
    → ((double_submit_cookie random r).verdict ≡ next) ↔ (
        (r.header csrf_header_name ≢ [])
        × (r.cookie csrf_cookie_name ≡ some (r.header csrf_header_name)))
unfolding double_submit_cookie
double_submit_cookie_iff random r unsafe =
    rw unsafe (double_verdict_iff (r.cookie csrf_cookie_name) (r.header csrf_header_name))
