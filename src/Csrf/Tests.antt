-- ===== src/Csrf/Tests.antt =====
-- The CSRF middlewares on concrete requests.
use xlgo_core.Base.{
  ℕ, ◌≤◌, ◌≡◌, ◌≢◌, ◌↔◌, refl, List, [], ◌∷◌, true, false, Option, none, some, ◌+◌,
}
use xlgo_core.Base.Text.{Text, codes, text_eq, to_upper}
use xlgo_core.Base.Dict.{lookup, insert, delete, retain}
use xlgo_core.Base.Int.{ℤ}
use xlgo_core.Csrf.{
  Request, object, string, default_csrf_config, normalize_csrf_config, is_safe_method, client_token,
  csrf, next, csrf_handler, on_cookie, with_token, compared, matches, text_or_empty, json_token,
  or_else, stops, goes_on, or_default, is_zero, skips, double_submit_cookie, csrf_cookie_name,
  csrf_header_name,
}
use xlgo_core.Csrf.Checks.{Sends, csrf_iff, double_submit_cookie_iff}
use xlgo_core.Csrf.Api.{
  generate_api_token, cleanup_expired_api_tokens_locked, Use, generate, request, accepts,
  api_token_ttl, csrf_for_api, csrf_for_api_request, accepts-le-issues, csrf_for_api_iff,
}

abbrev ticket : Text
ticket = codes "t7"

abbrev dice : ℤ → Option Text
dice n = some (codes "r1")

-- A form is posted with the token as a field of its JSON body.
abbrev post : Request
post = record {
  method = codes "POST";
  path = codes "/admin/users";
  cookie = λ n. some ticket;
  header = λ n. [];
  post_form = λ n. [];
  body = λ n. object (λ f. some (string ticket));
  context = λ k. none;
}

csrf-post : (csrf dice (some default_csrf_config) post).verdict ≡ next
unfolding csrf csrf_handler on_cookie with_token compared matches client_token json_token
    text_or_empty or_else is_safe_method normalize_csrf_config or_default text_eq to_upper is_zero
csrf-post = refl

unsafe-post : is_safe_method post.method ≡ false
unfolding is_safe_method to_upper text_eq
unsafe-post = refl

skips-post : skips (normalize_csrf_config default_csrf_config) post ≡ false
unfolding normalize_csrf_config or_default is_zero
skips-post = refl

stops-post : stops (normalize_csrf_config default_csrf_config).error_func post ≡ true
unfolding normalize_csrf_config stops
stops-post = refl

csrf_iff_example :
    ((goes_on post (csrf dice (some default_csrf_config) post).verdict ≡ true)
      ↔ Sends (normalize_csrf_config default_csrf_config) post ticket)
    × ((csrf dice (some default_csrf_config) post).set_cookie ≡ none)
csrf_iff_example =
    csrf_iff dice default_csrf_config post 116 (55 ∷ []) skips-post unsafe-post refl stops-post

double_submit_cookie_iff_example : ((double_submit_cookie dice post).verdict ≡ next) ↔ (
    (post.header csrf_header_name ≢ [])
    × (post.cookie csrf_cookie_name ≡ some (post.header csrf_header_name)))
double_submit_cookie_iff_example = double_submit_cookie_iff dice post unsafe-post

abbrev adm : Text
adm = codes "/adm"

-- The token is sent twice, and once more after it was handed out again and ran out.
abbrev uses : List Use
uses =
    generate (some ticket) 5 6
    ∷ request ticket 10 11
    ∷ request ticket 12 13
    ∷ generate (some ticket) 20 20
    ∷ request ticket 1800000000021 1800000000022
    ∷ []

accepts-uses : accepts ticket uses [] ≡ 1
unfolding generate_api_token csrf_for_api cleanup_expired_api_tokens_locked lookup insert delete
    retain text_eq
accepts-uses = refl

accepts-le-issues_example : accepts ticket uses [] ≤ 2
unfolding text_eq
accepts-le-issues_example = accepts-le-issues ticket uses

safe-passes :
    csrf_for_api_request (codes "get") [] 8 9 ((ticket, 6) ∷ []) ≡ ((ticket, 6) ∷ [], true)
unfolding csrf_for_api_request is_safe_method to_upper text_eq
safe-passes = refl

csrf_for_api_iff_example :
    (((csrf_for_api ticket 8 9 ((ticket, 6) ∷ [])).1 ≡ true) ↔ (
      (at : ℕ) × ((ticket ≢ [])
        × (lookup ticket ((ticket, 6) ∷ []) ≡ some at)
        × (9 ≤ at + api_token_ttl))))
    × (ticket ≢ [] → lookup ticket (csrf_for_api ticket 8 9 ((ticket, 6) ∷ [])).0 ≡ none)
csrf_for_api_iff_example = csrf_for_api_iff ticket 8 9 ((ticket, 6) ∷ [])
