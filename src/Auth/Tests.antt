-- ===== src/Auth/Tests.antt =====
-- A chain for administrators, on the tokens of the toy library.
use xlgo_core.Base.{◌≡◌, refl, [], ◌∷◌, ◌++◌, true, false, some, any, ok}
use xlgo_core.Base.Text.{codes, text_eq, equal_fold, contains_rune}
use xlgo_core.Jwt.{fine, lost, parse_token}
use xlgo_core.Jwt.Toy.{config, old_claims, old_token, toy, ends, nothing}
use xlgo_core.Auth.{
  goes_on, forbidden, expired_login, and_then, context_of, auth_required, staff_required,
  require_user_types, admin, staff,
}
use xlgo_core.Auth.Chain.{auth_required_iff}

parse-old : parse_token toy ends (some config) old_token fine 12000000000 nothing ≡ ok old_claims
unfolding parse_token text_eq
parse-old = refl

staff_required-old :
    and_then
      (auth_required toy ends (some config) (codes "bearer old") fine 12000000000 nothing)
      staff_required
    ≡ forbidden
unfolding auth_required staff_required text_eq
staff_required-old = refl

auth_required-lost :
    auth_required toy ends (some config) (codes "bearer old") lost 12000000000 nothing
    ≡ expired_login
unfolding auth_required text_eq
auth_required-lost = refl

bearer_equal : equal_fold (codes "bEARER") (codes "Bearer") ≡ true
unfolding equal_fold
bearer_equal = refl

one_word : contains_rune (codes "bEARER") 32 ≡ false
unfolding contains_rune
one_word = refl

admin_listed : any (text_eq (codes "admin")) (staff ∷ admin ∷ []) ≡ true
unfolding text_eq
admin_listed = refl

auth_required_iff_example :
    and_then
      (auth_required toy ends
        (some config)
        (codes "bEARER" ++ 32 ∷ old_token)
        fine
        12000000000
        nothing)
      (require_user_types (staff ∷ admin ∷ []))
    ≡ goes_on (context_of old_claims)
auth_required_iff_example =
    (auth_required_iff toy ends (staff ∷ admin ∷ []) (some config) (codes "bEARER") old_token fine
        12000000000 nothing (context_of old_claims) one_word).1
      (bearer_equal, old_claims, parse-old, admin_listed, refl)
