-- ===== src/Accounts/Refinement.antt =====
-- The accounts of gateway/services/auth_service.py against what they promise: a dictionary from
-- emails to an id and a password.
use tao_gateway.Base.{
  ◌≡◌, refl, sym, ap, ◌∙◌, ◌⊎◌, inl, inr, String, Option, none, some, List, [], ◌∷◌, ◌++◌, map,
  str_eq, eq_iff, string_eq, arith, if◌then◌else◌, Bool-cases,
}
use tao_gateway.Base.Dict.{Dict, lookup, insert, lookup-insert, or_else}
use tao_gateway.Errors.{GatewayError}
use tao_gateway.Accounts.Interfaces.{PasswordHasher}
use tao_gateway.Accounts.{
  Organization, Organizations, normalize, find_email, Checked, passes, refuses, crashes, Rehash,
  commits, rolls_back, invalid_credentials, new_org, signup, set_hash, rehash_with, try_rehash,
  verify_credentials,
}

-- A call of the service, with what it draws.
pub data Call : Type 0 where
  signs_up : (id salt email password : String) → Call
  logs_in : (email password : String) (effort : Rehash) → Call

pub data LoginAnswer : Type 0 where
  created : String → LoginAnswer
  taken : LoginAnswer
  admitted : String → LoginAnswer
  denied : GatewayError → LoginAnswer
  broken : LoginAnswer

-- The dictionary, by normalized emails, and what a call does with it.
abbrev pub Book : Type 0
Book = Dict String (String × String)

abbrev promise_account :
    String → String → String → Book → Option (String × String) → LoginAnswer × Book
promise_account id email password book (some entry) = (taken, book)
promise_account id email password book none = (created id, insert email (id, password) book)

abbrev promise_login : String → Option (String × String) → LoginAnswer
promise_login tried none = denied invalid_credentials
promise_login tried (some (id, password)) =
    if str_eq password tried then admitted id else denied invalid_credentials

abbrev pub promised : Book → Call → LoginAnswer × Book
promised book (signs_up id salt email password) =
    promise_account id (normalize email) password book (lookup (normalize email) book)
promised book (logs_in email password effort) =
    (promise_login password (lookup (normalize email) book), book)

abbrev pub promised_all : Book → List Call → List LoginAnswer
promised_all book [] = []
promised_all book (c ∷ calls) = let (a, book') = promised book c in a ∷ promised_all book' calls

abbrev signup_answer : Option Organization → LoginAnswer
signup_answer none = taken
signup_answer (some org) = created org.id

abbrev login_answer : Checked Organization → LoginAnswer
login_answer (passes org) = admitted org.id
login_answer (refuses e) = denied e
login_answer crashes = broken

module _ (hasher : PasswordHasher) where
  -- What the service does.
  abbrev pub serve : Organizations → Call → LoginAnswer × Organizations
  serve orgs (signs_up id salt email password) =
      let (org, orgs') = signup hasher id salt email password orgs in (signup_answer org, orgs')
  serve orgs (logs_in email password effort) =
      let (checked, orgs') = verify_credentials hasher email password effort orgs in
      (login_answer checked, orgs')

  abbrev pub serve_all : Organizations → List Call → List LoginAnswer
  serve_all orgs [] = []
  serve_all orgs (c ∷ calls) = let (a, orgs') = serve orgs c in a ∷ serve_all orgs' calls

  -- A row and an entry: neither, or both of one id, the hash being one of the password.
  abbrev IsEntry : String → Option Organization → Option (String × String) → Type 0
  IsEntry email found entry =
      ((found ≡ none) × (entry ≡ none))
      ⊎ ((org : Organization) × (password : String) × (salt : String) × (found ≡ some org)
          × (entry ≡ some (org.id, password))
          × (org.email ≡ email)
          × (org.password_hash ≡ hasher.hash salt password))

  abbrev IsBook : Organizations → Book → Type 0
  IsBook orgs book = (email : String) → IsEntry email (find_email email orgs) (lookup email book)

  abbrev if_of : String → Organization → Option Organization
  if_of email org = if str_eq org.email email then some org else none

  find_email-append :
      (email : String) (org : Organization) (orgs : Organizations)
      → find_email email (orgs ++ (org ∷ [])) ≡ or_else (find_email email orgs) (if_of email org)
  unfolding find_email
  find_email-append email org [] = refl
  find_email-append email org (o ∷ orgs) = elim (Bool-cases (str_eq o.email email)) [
    | inl h ↦ rw h refl
    | inr h ↦ rw h (find_email-append email org orgs)
  ]

  abbrev set_found : String → String → Option Organization → Option Organization
  set_found k h none = none
  set_found k h (some org) = some (set_hash hasher k h org)

  set_hash-email : (k h : String) (org : Organization) → (set_hash hasher k h org).email ≡ org.email
  set_hash-email k h org = elim (Bool-cases (str_eq org.email k)) [
    | inl e ↦ rw e refl
    | inr e ↦ rw e refl
  ]

  find_email-set_hash :
      (email k h : String) (orgs : Organizations)
      → find_email email (map (set_hash hasher k h) orgs) ≡ set_found k h (find_email email orgs)
  unfolding find_email
  find_email-set_hash email k h [] = refl
  find_email-set_hash email k h (org ∷ orgs) = elim (Bool-cases (str_eq org.email email)) [
    | inl e ↦ rw (set_hash-email k h org, e) refl
    | inr e ↦ rw (set_hash-email k h org, e) (find_email-set_hash email k h orgs)
  ]

  -- A new hash of the account's own password is as good as the old one.
  rehash-IsBook :
      (k password salt : String) (orgs : Organizations) (book : Book) (id : String)
      → lookup k book ≡ some (id, password)
      → IsBook orgs book
      → IsBook (map (set_hash hasher k (hasher.hash salt password)) orgs) book
  rehash-IsBook k password salt orgs book id here h email =
      let new_hash = hasher.hash salt password in
      rw (find_email-set_hash email k new_hash orgs) (elim (h email) [
        | inl (found, entry) ↦ inl (rw found refl, entry)
        | inr (org, p, old_salt, found, entry, at, hashed) ↦
            elim (Bool-cases (str_eq org.email k)) [
              | inl same ↦
                  let own : p ≡ password = ground (arith, eq_iff org.email k) in
                  inr (
                    record org { password_hash = new_hash },
                    p,
                    salt,
                    rw (found, same) refl,
                    entry,
                    at,
                    ap (hasher.hash salt) (sym own),
                  )
              | inr other ↦ inr (org, p, old_salt, rw (found, other) refl, entry, at, hashed)
            ]
      ])

  added-IsBook :
      (org : Organization) (salt password : String) (orgs : Organizations) (book : Book)
      → find_email org.email orgs ≡ none
      → org.password_hash ≡ hasher.hash salt password
      → IsBook orgs book
      → IsBook (orgs ++ (org ∷ [])) (insert org.email (org.id, password) book)
  added-IsBook org salt password orgs book fresh hashed h email =
      rw (find_email-append email org orgs, lookup-insert org.email email (org.id, password) book)
        (elim (Bool-cases (str_eq org.email email)) [
          | inl same ↦
              let at = (eq_iff org.email email).0 same in
              let here : find_email email orgs ≡ none =
                ap (λ v. find_email v orgs) (sym at) ∙ fresh in
              rw (here, same) (inr (org, password, salt, refl, refl, at, hashed))
          | inr other ↦ elim (h email) [
            | inl (found, entry) ↦ rw (found, other, entry) (inl (refl, refl))
            | inr (o, p, s, found, entry, e, hh) ↦
                rw (found, other, entry) (inr (o, p, s, refl, refl, e, hh))
          ]
        ])

  -- A call answers what is promised, and keeps the rows a table of the dictionary.
  abbrev IsKept : Organizations → Book → Call → Type 0
  IsKept orgs book c =
      ((serve orgs c).0 ≡ (promised book c).0) × IsBook (serve orgs c).1 (promised book c).1

  signup-IsKept :
      (id salt email password : String) (orgs : Organizations) (book : Book)
      → IsBook orgs book
      → IsKept orgs book (signs_up id salt email password)
  unfolding signup
  signup-IsKept id salt email password orgs book h = elim (h (normalize email)) [
    | inl (found, entry) ↦
        let org = new_org hasher id salt (normalize email) password in
        rw (found, entry) (refl, added-IsBook org salt password orgs book found refl h)
    | inr (o, p, s, found, entry, e, hh) ↦ rw (found, entry) (refl, h)
  ]

  try_rehash-IsBook :
      (org : Organization) (password : String) (effort : Rehash) (orgs : Organizations)
      (book : Book)
      → lookup org.email book ≡ some (org.id, password)
      → IsBook orgs book
      → IsBook (try_rehash hasher org password effort orgs) book
  unfolding try_rehash
  try_rehash-IsBook org password effort orgs book here h =
      elim (Bool-cases (hasher.check_needs_rehash org.password_hash)) [
        | inl e ↦ rw e (after_effort effort)
        | inr e ↦ rw e h
      ]
    where
      after_effort :
          (effort : Rehash) → IsBook (rehash_with hasher org.email password effort orgs) book
      after_effort rolls_back = h
      after_effort (commits salt) = rehash-IsBook org.email password salt orgs book org.id here h

  login-IsKept :
      (email password : String) (effort : Rehash) (orgs : Organizations) (book : Book)
      → IsBook orgs book
      → IsKept orgs book (logs_in email password effort)
  unfolding verify_credentials
  login-IsKept email password effort orgs book h = elim (h (normalize email)) [
    | inl (found, entry) ↦ rw (found, entry) (refl, h)
    | inr (org, p, s, found, entry, e, hashed) ↦
        let judged = ap (λ x. hasher.verify x password) hashed ∙ hasher.verify_hash s p password in
        rw (found, entry, judged)
          (elim (Bool-cases (str_eq p password)) [
            | inl same ↦ rw same (
              refl,
              try_rehash-IsBook org password effort orgs book
                  (rw e (entry ∙ ap (λ v. some (org.id, v)) ((eq_iff p password).0 same))) h,
            )
            | inr other ↦ rw other (refl, h)
          ])
  ]

  serve-IsKept :
      (orgs : Organizations) (book : Book) (c : Call) → IsBook orgs book → IsKept orgs book c
  serve-IsKept orgs book (signs_up id salt email password) h =
      signup-IsKept id salt email password orgs book h
  serve-IsKept orgs book (logs_in email password effort) h =
      login-IsKept email password effort orgs book h

  serve_all_from :
      (calls : List Call) (orgs : Organizations) (book : Book)
      → IsBook orgs book
      → serve_all orgs calls ≡ promised_all book calls
  serve_all_from [] orgs book h = refl
  serve_all_from (c ∷ calls) orgs book h =
      let kept = serve-IsKept orgs book c h in
      cc (kept.0, serve_all_from calls (serve orgs c).1 (promised book c).1 kept.1)

  -- From no accounts, any calls of signup and of the verification of credentials, in any order and
  -- whether or not hashes are renewed, answer as a dictionary from normalized emails to passwords
  -- does: a signup fails exactly where the email is there, a login gives the id of the account
  -- exactly with its password, and fails in one way else.
  pub serve_all-promised : (calls : List Call) → serve_all [] calls ≡ promised_all [] calls
  unfolding find_email
  serve_all-promised calls = serve_all_from calls [] [] (λ email. inl (refl, refl))
