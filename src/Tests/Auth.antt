-- ===== src/Tests/Auth.antt =====
-- backend/synqc_backend/auth/deps.py over a store of one user with one session and one token.
use syn_qc_temporal_dynamics.Prelude.{
  String, str_eq, ◌≡◌, ◌⊎◌, ◌↔◌, refl, false, none, some, List, [], ◌∷◌, if◌then◌else◌, ok, raise,
  All,
}
use syn_qc_temporal_dynamics.Dict.Sweep.{member}
use syn_qc_temporal_dynamics.Auth.{
  Settings, Request, User, Info, AuthStore, missing_scope, present, needs_auth, token_principal,
  has_api_key, is_safe_method, from_session, from_token, get_principal, missing_scopes,
  require_scopes, require_csrf,
}
use syn_qc_temporal_dynamics.Auth.Scopes.{Covers, SameToken, require_scopes_iff, require_csrf_iff}
use syn_qc_temporal_dynamics.Auth.Principals.{Origin, guarded, guarded_admits}

program : Unit {0}
unfolding needs_auth has_api_key from_session from_token get_principal missing_scopes require_scopes
    is_safe_method require_csrf guarded
program = tt

abbrev user : User
user = record { id = 1; email = "u@x"; is_admin = false; is_active = false }

abbrev info : Info
info = record { user_id = 1; email = "u@x"; is_admin = false; scopes = "run" ∷ [] }

abbrev store : AuthStore
store = record {
  Store = Unit;
  session_user = λ sid s. (s, if str_eq sid "sid" then some 1 else none);
  get_user_by_id = λ n s. some user;
  verify_api_token = λ t s. (s, if str_eq t "tok" then some info else none);
}

abbrev settings : Settings
settings = record { api_key = some "key"; auth_required = false }

abbrev with_token : Request
with_token = record {
  method = "POST";
  bearer = some "tok";
  x_api_key = some "";
  session_cookie = some "old";
  csrf_cookie = some "t";
  csrf_header = some "t";
}

token_enters : guarded store settings ("run" ∷ []) with_token tt ≡ ok (token_principal info)
unfolding program
token_enters = refl

admin_refused :
    guarded store settings ("run" ∷ "admin" ∷ []) with_token tt
    ≡ raise (missing_scope ("admin" ∷ []))
unfolding program
admin_refused = refl

guarded_admits_example :
    Origin store settings with_token tt (token_principal info)
    × Covers (token_principal info) ("run" ∷ [])
unfolding program
guarded_admits_example =
    guarded_admits store settings ("run" ∷ []) with_token tt (token_principal info) refl refl

require_scopes_iff_example :
    ((require_scopes settings ("admin" ∷ []) (token_principal info) ≡ ok (token_principal info))
      ↔ Covers (token_principal info) ("admin" ∷ []))
    × ((require_scopes settings ("admin" ∷ []) (token_principal info) ≡ ok (token_principal info))
        ⊎ ((t : String) × (ts : List String) × (require_scopes settings
                ("admin" ∷ [])
                (token_principal info)
              ≡ raise (missing_scope (t ∷ ts)))
            × All (λ u. member u (token_principal info).scopes ≡ false) (t ∷ ts)))
unfolding program
require_scopes_iff_example =
    require_scopes_iff settings ("admin" ∷ []) (token_principal info) refl refl

require_csrf_iff_example : (require_csrf with_token ≡ ok tt) ↔ (
    ((with_token.method ≡ "GET") ⊎ (with_token.method ≡ "HEAD") ⊎ (with_token.method ≡ "OPTIONS"))
    ⊎ (present with_token.session_cookie ≡ none)
    ⊎ SameToken with_token)
require_csrf_iff_example = require_csrf_iff with_token
