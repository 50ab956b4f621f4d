-- ===== src/Auth.antt =====
-- middleware/auth.go: who a request is from, and whom a route lets through, over the tokens of Jwt.
-- The texts of the answers are left out.
pub mod Chain
mod Tests
use xlgo_core.Base.{
  ℕ, ◌≡◌, List, [], ◌∷◌, Bool, true, false, not, Option, none, some, any, if◌then◌else◌, Result, ok,
  err,
}
use xlgo_core.Base.Text.{Text, codes, text_eq, cut, equal_fold}
use xlgo_core.Jwt.{Golang, Keys, Wire, Claims, Config, JwtError, parse_token}

-- `AuthUser`
pub record AuthUser : Type 0 where
  pub user_id : ℕ
  pub username : Text
  pub role : Text
  pub user_type : Text

-- A value in the context of a request: not there, of another type, or as it should be.
pub data Value (A : Type 0) : Type 0 where
  absent mistyped : Value A
  stored : A → Value A

pub record Context : Type 0 where
  pub id_value : Value ℕ
  pub name_value : Value Text
  pub role_value : Value Text
  pub type_value : Value Text

-- What a middleware does: it goes on with a context, or answers and aborts.
pub data Outcome : Type 0 where
  goes_on : Context → Outcome
  not_logged_in bad_header expired_login bad_user forbidden : Outcome

typed : {A B : Type 0} → Value A → (A → Option B) → Option B
typed absent f = none
typed mistyped f = none
typed (stored a) f = f a

-- `GetAuthUser`
unfoldable pub get_auth_user : Context → Option AuthUser
unfolding typed
get_auth_user c = typed c.id_value λ i. typed c.name_value λ n. typed c.role_value λ r.
    typed c.type_value λ t. some (record { user_id = i; username = n; role = r; user_type = t })

-- `abortAuthContext`
abort_auth_context : Value ℕ → Outcome
abort_auth_context absent = not_logged_in
abort_auth_context _ = bad_user

checked_by : Option (AuthUser → Bool) → AuthUser → Bool
checked_by none user = false
checked_by (some checker) user = checker user

allowed_on : Option (AuthUser → Bool) → Context → Option AuthUser → Outcome
unfolding abort_auth_context checked_by
allowed_on checker c none = abort_auth_context c.id_value
allowed_on checker c (some user) = if checked_by checker user then goes_on c else forbidden

-- `RequireAuth`, on a checker that may be nil
unfoldable pub require_auth : Option (AuthUser → Bool) → Context → Outcome
unfolding allowed_on get_auth_user
require_auth checker c = allowed_on checker c (get_auth_user c)

-- `RequireUserTypes`
unfoldable pub require_user_types : List Text → Context → Outcome
unfolding require_auth
require_user_types types = require_auth (some (λ u. any (text_eq u.user_type) types))

-- `RequireRoles`
unfoldable pub require_roles : List Text → Context → Outcome
unfolding require_auth
require_roles roles = require_auth (some (λ u. any (text_eq u.role) roles))

abbrev pub super_admin : Text
super_admin = codes "super_admin"

abbrev pub admin : Text
admin = codes "admin"

abbrev pub staff : Text
staff = codes "staff"

-- `AdminRequired`, `SuperAdminRequired`, `StaffRequired` and `AnyUserRequired`
unfoldable pub admin_required : Context → Outcome
unfolding require_user_types
admin_required = require_user_types (super_admin ∷ admin ∷ [])

unfoldable pub super_admin_required : Context → Outcome
unfolding require_user_types
super_admin_required = require_user_types (super_admin ∷ [])

unfoldable pub staff_required : Context → Outcome
unfolding require_user_types
staff_required = require_user_types (staff ∷ [])

unfoldable pub any_user_required : Context → Outcome
unfolding require_user_types
any_user_required = require_user_types (super_admin ∷ admin ∷ staff ∷ [])

-- What `AuthRequired` stores of the claims.
abbrev pub context_of : Claims → Context
context_of c = record {
  id_value = stored c.user_id;
  name_value = stored c.username;
  role_value = stored c.role;
  type_value = stored c.user_type;
}

logged_in : Result JwtError Claims → Outcome
logged_in (err e) = expired_login
logged_in (ok c) = goes_on (context_of c)

-- The next middleware of a chain.
abbrev pub and_then : Outcome → (Context → Outcome) → Outcome
and_then (goes_on c) next = next c
and_then stopped next = stopped

module _ (golang : Golang) (keys : Keys) where
  open keys use {Store}

  bearer : (Text → Result JwtError Claims) → Option (Text × Text) → Outcome
  unfolding logged_in equal_fold
  bearer parse none = bad_header
  bearer parse (some (scheme, token)) =
      if equal_fold scheme (codes "Bearer") then logged_in (parse token) else bad_header

  -- `AuthRequired`
  unfoldable pub auth_required : Option Config → Text → Wire → ℕ → Store → Outcome
  unfolding bearer parse_token cut
  auth_required cfg [] w now s = not_logged_in
  auth_required cfg (c ∷ header) w now s =
      bearer (λ token. parse_token golang keys cfg token w now s) (cut 32 (c ∷ header))
