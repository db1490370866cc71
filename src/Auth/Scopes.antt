-- ===== src/Auth/Scopes.antt =====
-- The scopes of a route and the test against forged requests in backend/synqc_backend/auth/deps.py.
use syn_qc_temporal_dynamics.Prelude.{
  String, str_eq, eq_iff, ◌≡◌, ◌⊎◌, ◌↔◌, refl, Bool, true, false, not, Option, none, some, List, [],
  ◌∷◌, arith, if◌then◌else◌, keep_if, ok, raise, All, Bool-cases, Option-cases, inl, inr, ap,
}
use syn_qc_temporal_dynamics.Dict.Sweep.{member}
use syn_qc_temporal_dynamics.Auth.{
  Principal, Settings, Request, csrf_failed, missing_scope, present, both_equal, needs_auth,
  is_safe_method, missing_scopes, check_missing, is_anonymous, require_scopes, require_csrf,
}

-- A scope is given directly or by `*`.
pub Covers : Principal → List String → Type 0
Covers p required = (member "*" p.scopes ≡ true) ⊎ All (λ t. member t p.scopes ≡ true) required

keep_if-nil :
    (f : String → Bool) (ts : List String)
    → keep_if (λ t. not (f t)) ts ≡ []
    → All (λ t. f t ≡ true) ts
keep_if-nil f [] h = tt
keep_if-nil f (t ∷ ts) h = ground (arith, keep_if-nil f ts)

missing-All :
    (f : String → Bool) (ts : List String) → All (λ t. f t ≡ false) (keep_if (λ t. not (f t)) ts)
missing-All f [] = tt
missing-All f (t ∷ ts) = ground (arith, missing-All f ts)

keep_if-All :
    (f : String → Bool) (ts : List String)
    → All (λ t. f t ≡ true) ts
    → keep_if (λ t. not (f t)) ts ≡ []
keep_if-All f [] h = refl
keep_if-All f (t ∷ ts) h = ground (arith, h, keep_if-All f ts h.1)

not_covered :
    (required : List String) (p : Principal) (t : String) (ts : List String)
    → member "*" p.scopes ≡ false
    → missing_scopes required p.scopes ≡ t ∷ ts
    → Covers p required
    → ⊥
unfolding missing_scopes Covers
not_covered required p t ts no_star lack (inl star) = ground (arith, star, no_star)
not_covered required p t ts no_star lack (inr all) =
    ground (arith, lack, keep_if-All (λ t. member t p.scopes) required all)

List-cases : (ts : List String) → (ts ≡ []) ⊎ ((t : String) × (us : List String) × (ts ≡ t ∷ us))
List-cases [] = inl refl
List-cases (t ∷ ts) = inr (t, ts, refl)

require_scopes-known :
    (c : Settings) (required : List String) (p : Principal)
    → needs_auth c ≡ true
    → is_anonymous p.kind ≡ false
    → require_scopes c required p
      ≡ (if member "*" p.scopes then ok p else check_missing p (missing_scopes required p.scopes))
unfolding require_scopes
require_scopes-known c required p n a = rw (n, a) refl

-- Where authentication asks for a scope, the answer to a known principal is decided by its scopes:
-- it is let through exactly if it has `*` or each of the scopes, and otherwise the exception lists
-- scopes that are missing, at least one.
pub require_scopes_iff :
    (c : Settings) (required : List String) (p : Principal)
    → needs_auth c ≡ true
    → is_anonymous p.kind ≡ false
    → ((require_scopes c required p ≡ ok p) ↔ Covers p required)
      × ((require_scopes c required p ≡ ok p)
          ⊎ ((t : String) × (ts : List String) × (require_scopes c required p
                ≡ raise (missing_scope (t ∷ ts)))
              × All (λ u. member u p.scopes ≡ false) (t ∷ ts)))
unfolding require_scopes missing_scopes Covers
require_scopes_iff c required p n a =
    let known = require_scopes-known c required p n a in
    let missing = missing_scopes required p.scopes in
    elim (Bool-cases (member "*" p.scopes)) [
      | inl star ↦
          let e : require_scopes c required p ≡ ok p = rw (known, star) refl in
          (((λ _. inl star), (λ _. e)), inl e)
      | inr no_star ↦ elim (List-cases missing) [
        | inl full ↦
            let e : require_scopes c required p ≡ ok p = rw (known, no_star, full) refl in
            let all = keep_if-nil (λ t. member t p.scopes) required full in
            (((λ _. inr all), (λ _. e)), inl e)
        | inr (t, ts, lack) ↦
            let e : require_scopes c required p ≡ raise (missing_scope (t ∷ ts)) =
              rw (known, no_star, lack) refl in
            (
              (
                (λ h. absurd (ground (arith, h, e))),
                (λ h. absurd (not_covered required p t ts no_star lack h)),
              ),
              inr (t, ts, e, rw lack at (missing-All (λ t. member t p.scopes) required)),
            )
      ]
    ]

pub SameToken : Request → Type 0
SameToken r =
    (t : String) × (r.csrf_cookie ≡ some t) × (r.csrf_header ≡ some t) × (str_eq t "" ≡ false)

both_equal-some :
    (a b : String)
    → both_equal (present (some a)) (present (some b)) ≡ true
    → (str_eq a "" ≡ false) × (b ≡ a)
both_equal-some a b h = ground (arith, h, eq_iff a b)

both_equal_iff :
    (a b : Option String)
    → (both_equal (present a) (present b) ≡ true)
      ↔ ((t : String) × (a ≡ some t) × (b ≡ some t) × (str_eq t "" ≡ false))
both_equal_iff none none = ground (arith)
both_equal_iff (some a) none = ground (arith)
both_equal_iff none (some b) = ground (arith)
both_equal_iff (some a) (some b) = (
  (λ h. let facts = both_equal-some a b h in (a, refl, ap some facts.1, facts.0)),
  (λ (t, p, q, full). ground (arith, p, q, full, eq_iff a b, eq_iff t t)),
)

is_safe_method_iff :
    (m : String) → (is_safe_method m ≡ true) ↔ ((m ≡ "GET") ⊎ (m ≡ "HEAD") ⊎ (m ≡ "OPTIONS"))
unfolding is_safe_method
is_safe_method_iff m = ground (arith, eq_iff m "GET", eq_iff m "HEAD", eq_iff m "OPTIONS")

-- The test against forged requests passes exactly for the methods GET, HEAD and OPTIONS, for a
-- request without the session cookie, and for one whose cookie and header hold the same token, not empty.
pub require_csrf_iff :
    (r : Request)
    → (require_csrf r ≡ ok tt) ↔ (
        ((r.method ≡ "GET") ⊎ (r.method ≡ "HEAD") ⊎ (r.method ≡ "OPTIONS"))
        ⊎ (present r.session_cookie ≡ none)
        ⊎ SameToken r)
unfolding require_csrf SameToken
require_csrf_iff r =
    let same = both_equal_iff r.csrf_cookie r.csrf_header in
    let known = is_safe_method_iff r.method in
    elim (Bool-cases (is_safe_method r.method)) [
      | inl safe ↦ ((λ _. inl (known.0 safe)), (λ _. rw safe refl))
      | inr unsafe ↦ elim (Option-cases (present r.session_cookie)) [
        | inl no_cookie ↦ ((λ _. inr (inl no_cookie)), (λ _. rw (unsafe, no_cookie) refl))
        | inr (sid, cookie) ↦
            elim (Bool-cases (both_equal (present r.csrf_cookie) (present r.csrf_header))) [
              | inl equal ↦
                  ((λ _. inr (inr (same.0 equal))), (λ _. rw (unsafe, cookie, equal) refl))
              | inr differ ↦
                  let e : require_csrf r ≡ raise csrf_failed = rw (unsafe, cookie, differ) refl in
                  (
                    (λ h. absurd (ground (arith, h, e))),
                    (λ h. absurd (ground (arith, h, unsafe, cookie, differ, same.1, known.1))),
                  )
            ]
      ]
    ]
