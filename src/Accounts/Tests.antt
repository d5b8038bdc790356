-- ===== src/Accounts/Tests.antt =====
-- Accounts at concrete inputs, with a hash that is the password and tokens in plain text.
use Prim.Native.Char.{code}
use Prim.Native.String.{count}
use Prim.Native.String.count
use text.Mathlib.TextLemmas.{nil-append, cons-append}
use tao_gateway.Base.{
  ℕ, suc, ◌+◌, ◌≤◌, ◌≡◌, refl, ap, ◌∙◌, String, true, false, Option, none, some, List, [], ◌∷◌, str,
  str_eq, str_append, nat_beq, prefix, suffix, ltb, arith, if◌then◌else◌, lower, strip, lstrip,
  rstrip, inl, inr, Bool-cases,
}
use mathlib.Core.Path.{subst}
use native.Mathlib.Nat.{zero-add}
use tao_gateway.Base.Text.Decimal.{int_of, int_of-str}
use tao_gateway.Errors.{ok}
use tao_gateway.Accounts.Interfaces.{verified, mismatch, PasswordHasher, Payload, Jwt}
use tao_gateway.Accounts.{
  Organization, Organizations, normalize, find_email, get_org_by_id, passes, commits, rolls_back,
  invalid_credentials, AuthSettings, verify_credentials, create_jwt_token, login_with_org_id,
}
use tao_gateway.Accounts.Endpoints.{
  JsonAnswer, post_signup, set_auth_cookies, cookie_of, Stored, login_dashboard, me, logout,
}
use tao_gateway.Accounts.Refinement.{
  Call, signs_up, logs_in, created, taken, admitted, denied, promised_all, serve_all,
  serve_all-promised,
}
use tao_gateway.Accounts.Session.{IsIdentified, post_signup-same, login_dashboard-me}

abbrev plain : PasswordHasher
plain = record {
  hash = λ salt password. password;
  verify = λ hash tried. if str_eq hash tried then verified else mismatch;
  check_needs_rehash = λ hash. true;
  verify_hash = λ salt password tried. refl;
}

-- The length of a text in ones, a point, and a text behind it.
tally : String → String → String
tally String.[] t = String.◌∷◌ "." t
tally (String.◌∷◌ c s) t = String.◌∷◌ "1" (tally s t)

untally : ℕ → String → ℕ × String
untally n String.[] = (n, "")
untally n (String.◌∷◌ c s) =
    let rest = untally (suc n) s in if nat_beq (code c) 49 then rest else (n, s)

untally-tally : (n : ℕ) (s t : String) → untally n (tally s t) ≡ (n + count s, t)
unfolding tally untally
untally-tally n String.[] t = ap (λ m. (m, t)) (omega arith)
untally-tally n (String.◌∷◌ c s) t =
    untally-tally (suc n) s t ∙ ap (λ m. (m, t)) (rw (count.cons c s) (omega arith))

prefix-append : (s t : String) → prefix (count s) (str_append s t) ≡ s
unfolding prefix
prefix-append String.[] t = refl
prefix-append (String.◌∷◌ c s) t =
    rw (count.cons c s, cons-append c s t) (ap (String.◌∷◌ c) (prefix-append s t))

suffix-append : (s t : String) → suffix (count s) (str_append s t) ≡ t
unfolding suffix
suffix-append String.[] t = nil-append t
suffix-append (String.◌∷◌ c s) t = rw (count.cons c s, cons-append c s t) (suffix-append s t)

-- The subject with its length before it, and the end of the lifetime.
abbrev token_text : Payload → String
token_text p = tally p.sub (str_append p.sub (str p.exp))

abbrev read_text : ℕ → ℕ × String → Option (Option String)
read_text now (n, t) = if ltb now (int_of (suffix n t)) then some (some (prefix n t)) else none

read_text-token :
    (p : Payload) (now : ℕ)
    → read_text now (untally 0 (token_text p)) ≡ (if ltb now p.exp then some (some p.sub) else none)
read_text-token p now =
    let t = str_append p.sub (str p.exp) in
    let behind = suffix-append p.sub (str p.exp) in
    let split = untally-tally 0 p.sub t ∙ ap (λ m. (m, t)) (zero-add (count p.sub)) in
    rw (split, behind, prefix-append p.sub (str p.exp), int_of-str p.exp) refl

reads_in_time :
    (p : Payload) (now : ℕ)
    → now + 1_000_000 ≤ p.exp
    → read_text now (untally 0 (token_text p)) ≡ some (some p.sub)
reads_in_time p now h = read_text-token p now ∙ ground arith

reads_late : (p : Payload) (now : ℕ) → p.exp ≤ now → read_text now (untally 0 (token_text p)) ≡ none
reads_late p now h = read_text-token p now ∙ ground arith

abbrev in_text : Jwt
in_text = record {
  encode = λ p secret. token_text p;
  decode = λ now token secret iss aud. read_text now (untally 0 token);
  decode_encode = λ p secret now a b. reads_in_time p now b;
  decode_expired = λ p secret now a. reads_late p now a;
}

abbrev settings : AuthSettings
settings = record {
  debug = false;
  jwt_secret_key = "0123456789abcdef0123456789abcdef";
  jwt_expire_minutes = 30;
  refresh_token_expire_days = 7;
}

abbrev ann : Organization
ann = record { id = "o1"; email = "a@b.org"; password_hash = "pw-1-2-3"; is_admin = true }

abbrev orgs : Organizations
orgs = ann ∷ []

abbrev calls : List Call
calls =
    signs_up "o1" "s" " A@b.org" "pw-1-2-3"
    ∷ signs_up "o2" "s" "a@B.org" "other"
    ∷ logs_in "a@b.ORG" "pw-1-2-3" (commits "t")
    ∷ logs_in "a@b.org" "other" rolls_back
    ∷ []

answers :
    promised_all [] calls ≡ (created "o1" ∷ taken ∷ admitted "o1" ∷ denied invalid_credentials ∷ [])
unfolding normalize lower strip lstrip rstrip
answers = refl

serve_all-promised_example : serve_all plain [] calls ≡ promised_all [] calls
serve_all-promised_example = serve_all-promised plain calls

post_signup-same_example :
    (post_signup plain "o9" "s" "a@b.org" "pw-1-2-3" orgs).0
    ≡ (post_signup plain "o9" "s" "a@b.org" "pw-1-2-3" []).0
post_signup-same_example = post_signup-same plain "o9" "s" "a@b.org" "pw-1-2-3" orgs []

orgs-IsIdentified : IsIdentified plain orgs
unfolding find_email get_org_by_id
orgs-IsIdentified email org found = elim (Bool-cases (str_eq "a@b.org" email)) [
  | inl e ↦
      let same : ann ≡ org = ground arith in
      subst (λ (o : Organization). get_org_by_id o.id orgs ≡ some o) same refl
  | inr e ↦ ground arith
]

abbrev digest : String → String
digest s = s

abbrev stored : Stored plain in_text settings digest
stored = record { orgs = orgs; tokens = [] }

abbrev answered : JsonAnswer
answered = record {
  message = "Login successful";
  cookies = set_auth_cookies settings (create_jwt_token plain in_text settings "o1" 5_000_000) "r1";
}

abbrev logged_in : Stored plain in_text settings digest
logged_in =
    (login_dashboard plain in_text settings digest "A@b.org" "pw-1-2-3" (commits "t") "r1" 5_000_000
      stored).1

logs_in_passes :
    login_dashboard plain in_text settings digest "A@b.org" "pw-1-2-3"
      (commits "t")
      "r1"
      5_000_000
      stored
    ≡ (passes answered, logged_in)
unfolding login_dashboard login_with_org_id verify_credentials find_email normalize lower strip
    lstrip rstrip
logs_in_passes = refl

login_dashboard-me_example :
    let cookie = cookie_of "access_token" answered.cookies in
    let after = (logout plain in_text settings digest (some "r1") 7_000_000 logged_in).1 in
    (org : Organization) × (find_email (normalize "A@b.org") orgs ≡ some org)
    × (me plain in_text settings digest none cookie 9_000_000 logged_in
        ≡ ok (org.id, org.email, org.is_admin))
    × (me plain in_text settings digest none cookie 9_000_000 after
        ≡ ok (org.id, org.email, org.is_admin))
login_dashboard-me_example =
    login_dashboard-me plain in_text settings digest "A@b.org" "pw-1-2-3" (commits "t") "r1"
      5_000_000 9_000_000 stored logged_in answered (some "r1") 7_000_000 orgs-IsIdentified
      logs_in_passes (omega arith) (omega arith)
