-- ===== src/Auth.antt =====
-- backend/synqc_backend/auth/deps.py: who a request is (`get_principal`), which scopes a route
-- asks for (`require_scopes`) and the test against forged requests (`require_csrf`). A request is
-- given by the headers and cookies that are read; the method is in capitals and
-- the bearer is what `_parse_bearer` returns. The
-- store behind the cookies and tokens is an interface.
pub mod Scopes
pub mod Principals
use syn_qc_temporal_dynamics.Prelude.{
  ℕ, String, str_eq, Bool, true, false, not, ◌&&◌, ◌||◌, Option, none, some, List, [], ◌∷◌,
  if◌then◌else◌, keep_if, Result, ok, raise,
}
use syn_qc_temporal_dynamics.Dict.Sweep.{member}

-- api_key_admin, user_session and api_token are the kinds beside anonymous.
pub data Kind : Type 0 where
  anonymous api_key_admin user_session api_token : Kind

pub record Principal : Type 0 where
  pub kind : Kind
  pub user_id : Option ℕ
  pub email : Option String
  pub is_admin : Bool
  pub scopes : List String

pub record Settings : Type 0 where
  pub api_key : Option String
  pub auth_required : Bool

pub record Request : Type 0 where
  pub method : String
  pub bearer : Option String
  pub x_api_key : Option String
  pub session_cookie : Option String
  pub csrf_cookie : Option String
  pub csrf_header : Option String

-- The columns of a user and of a session that are read here.
pub record User : Type 0 where
  pub id : ℕ
  pub email : String
  pub is_admin : Bool
  pub is_active : Bool

pub record Info : Type 0 where
  pub user_id : ℕ
  pub email : String
  pub is_admin : Bool
  pub scopes : List String

-- The operations of the store that authentication calls; a call may change the store.
pub record AuthStore : Type 1 where
  pub Store : Type 0
  pub session_user : String → Store → Store × Option ℕ
  pub get_user_by_id : ℕ → Store → Option User
  pub verify_api_token : String → Store → Store × Option Info

-- The exceptions: status 401, and 403 with what is missing or for a forged request.
pub data HttpError : Type 0 where
  unauthorized csrf_failed : HttpError
  missing_scope : List String → HttpError

-- A text in a condition: missing and empty are false.
abbrev pub present : Option String → Option String
present none = none
present (some t) = if str_eq t "" then none else some t

-- `a and b and a == b`
abbrev pub both_equal : Option String → Option String → Bool
both_equal (some a) (some b) = str_eq a b
both_equal _ none = false
both_equal none (some b) = false

abbrev pub is_some : Option String → Bool
is_some none = false
is_some (some _) = true

-- `auth_required()`
unfoldable pub needs_auth : Settings → Bool
needs_auth c = is_some (present c.api_key) || c.auth_required

abbrev pub api_key_principal : Principal
api_key_principal = record {
  kind = api_key_admin;
  user_id = none;
  email = none;
  is_admin = true;
  scopes = "*" ∷ [];
}

abbrev pub anonymous_principal : Principal
anonymous_principal = record {
  kind = anonymous;
  user_id = none;
  email = none;
  is_admin = false;
  scopes = [];
}

-- Step 1: the key of the settings, in its own header or as the bearer.
unfoldable pub has_api_key : Settings → Request → Bool
has_api_key c r =
    both_equal (present r.x_api_key) (present c.api_key)
    || both_equal (present r.bearer) (present c.api_key)

-- Both branches of the source's conditional give the scope `*`.
abbrev pub session_scopes : Bool → List String
session_scopes true = "*" ∷ []
session_scopes false = "*" ∷ []

abbrev pub session_principal : User → Principal
session_principal user = record {
  kind = user_session;
  user_id = some user.id;
  email = some user.email;
  is_admin = user.is_admin;
  scopes = session_scopes user.is_admin;
}

-- `scopes.add("*")` on a set.
abbrev pub add_scope : String → List String → List String
add_scope t scopes = if member t scopes then scopes else t ∷ scopes

abbrev pub token_principal : Info → Principal
token_principal info = record {
  kind = api_token;
  user_id = some info.user_id;
  email = some info.email;
  is_admin = info.is_admin;
  scopes = if info.is_admin then add_scope "*" info.scopes else info.scopes;
}

module _ (store : AuthStore) where
  open store use {Store, session_user, get_user_by_id, verify_api_token}

  -- Step 2: the session of the cookie, and its user.
  unfoldable pub from_session : Option String → Store → Store × Option Principal
  from_session none s = (s, none)
  from_session (some session_id) s =
      let (s', owner) = session_user session_id s in
      elim owner [
        | none ↦ (s', none)
        | some user_id ↦ elim (get_user_by_id user_id s') [
          | none ↦ (s', none)
          | some user ↦ (s', some (session_principal user))
        ]
      ]

  -- Step 3: the bearer as a token.
  unfoldable pub from_token : Option String → Store → Store × Option Principal
  from_token none s = (s, none)
  from_token (some bearer) s =
      let (s', found) = verify_api_token bearer s in
      elim found [ none ↦ (s', none) | some info ↦ (s', some (token_principal info)) ]

  -- Step 4: nobody.
  abbrev pub or_anonymous : Settings → Option Principal → Result HttpError Principal
  or_anonymous c (some p) = ok p
  or_anonymous c none = if needs_auth c then raise unauthorized else ok anonymous_principal

  abbrev pub session_or_token :
      Settings → Request → Store × Option Principal → Store × Result HttpError Principal
  session_or_token c r (s, some p) = (s, ok p)
  session_or_token c r (s, none) =
      let answer = from_token (present r.bearer) s in (answer.0, or_anonymous c answer.1)

  unfoldable pub get_principal : Settings → Request → Store → Store × Result HttpError Principal
  unfolding has_api_key
  get_principal c r s =
      if has_api_key c r
      then (s, ok api_key_principal)
      else session_or_token c r (from_session (present r.session_cookie) s)

-- `[s for s in required if s not in principal.scopes]`
unfoldable pub missing_scopes : List String → List String → List String
missing_scopes required scopes = keep_if (λ t. not (member t scopes)) required

abbrev pub check_missing : Principal → List String → Result HttpError Principal
check_missing p [] = ok p
check_missing p (t ∷ ts) = raise (missing_scope (t ∷ ts))

abbrev pub is_anonymous : Kind → Bool
is_anonymous anonymous = true
is_anonymous _ = false

unfoldable pub require_scopes : Settings → List String → Principal → Result HttpError Principal
unfolding needs_auth missing_scopes
require_scopes c required p =
    if not (needs_auth c)
    then ok p
    else if is_anonymous p.kind
    then raise unauthorized
    else if member "*" p.scopes
    then ok p
    else check_missing p (missing_scopes required p.scopes)

-- The methods that change nothing.
unfoldable pub is_safe_method : String → Bool
is_safe_method m = str_eq m "GET" || str_eq m "HEAD" || str_eq m "OPTIONS"

unfoldable pub require_csrf : Request → Result HttpError Unit
unfolding is_safe_method
require_csrf r =
    if is_safe_method r.method
    then ok tt
    else if not (is_some (present r.session_cookie))
    then ok tt
    else if both_equal (present r.csrf_cookie) (present r.csrf_header)
    then ok tt
    else raise csrf_failed
