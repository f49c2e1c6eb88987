-- ===== src/Endpoint/Expiration/Renewal.antt =====
-- Who can renew the authentication of a session, in src/tateyama/endpoint/common/worker_common.h.
use tateyama.Base.{
  ℕ, ◌≡◌, ◌≢◌, refl, sym, ap, ◌⊎◌, inl, inr, true, Option, some, none, [], ◌∷◌, arith, Bool-cases,
  Option-cases,
}
use tateyama.Base.Text.{Str, eq_of_str_eq}
use tateyama.Endpoint.Handshake.{
  Authentication, Verdict, accepts, rejects, raises, Credential, encrypted_credential,
  remember_me_credential, no_credential, Code,
}
use tateyama.Endpoint.Expiration.{
  Limits, Checked, UpdateError, UpdateAnswer, update_success, update_error, password_checked,
  token_checked, check_credential, compare_user, is_name, update_authentication,
}

-- why an update counts as a success
pub data Renews (a : Authentication) (own : Option Str) : Credential → Type 0 where
  by_password :
      (text name : Str)
      → a.verify_encrypted text ≡ accepts name
      → own ≡ some name
      → Renews a own (encrypted_credential text)
  by_token :
      (text name : Str)
      → a.verify_token text ≡ accepts name
      → own ≡ some name
      → Renews a own (remember_me_credential text)
  by_raise_without_text :
      (text : Str) (code : Option Code)
      → a.verify_encrypted text ≡ raises code []
      → Renews a own (encrypted_credential text)
  by_raise_without_code :
      (text message : Str)
      → a.verify_token text ≡ raises none message
      → Renews a own (remember_me_credential text)

is_name_lem : (own : Option Str) (name : Str) → is_name own name ≡ true → own ≡ some name
is_name_lem none name h = cc
is_name_lem (some o) name h = ap some (sym (eq_of_str_eq name o h))

compare_user-same :
    (own : Option Str) (c : Checked) (name : Str)
    → c.user_name ≡ some name
    → (compare_user own c).error ≡ none
    → own ≡ some name
unfolding compare_user
compare_user-same own c name n e = elim (Bool-cases (is_name own name)) [
  | inl same ↦ is_name_lem own name same
  | inr other ↦ absurd (ground arith)
]

password-Renews :
    (a : Authentication) (own : Option Str) (text : Str) (v : Verdict)
    → a.verify_encrypted text ≡ v
    → (compare_user own (password_checked v)).error ≡ none
    → Renews a own (encrypted_credential text)
unfolding compare_user
password-Renews a own text (accepts name) e h =
    by_password text name e (compare_user-same own (password_checked (accepts name)) name refl h)
password-Renews a own text rejects e h = absurd (cc)
password-Renews a own text (raises code []) e h = by_raise_without_text text code e
password-Renews a own text (raises code (b ∷ bs)) e h = absurd (cc)

token-Renews :
    (a : Authentication) (own : Option Str) (text : Str) (v : Verdict)
    → a.verify_token text ≡ v
    → (compare_user own (token_checked v)).error ≡ none
    → Renews a own (remember_me_credential text)
unfolding compare_user
token-Renews a own text (accepts name) e h =
    by_token text name e (compare_user-same own (token_checked (accepts name)) name refl h)
token-Renews a own text rejects e h = absurd (cc)
token-Renews a own text (raises none message) e h = by_raise_without_code text message e
token-Renews a own text (raises (some code) message) e h = absurd (cc)

credential-Renews :
    (a : Authentication) (own : Option Str) (k : Credential)
    → (compare_user own (check_credential a k)).error ≡ none
    → Renews a own k
unfolding check_credential compare_user
credential-Renews a own (encrypted_credential text) h =
    password-Renews a own text (a.verify_encrypted text) refl h
credential-Renews a own (remember_me_credential text) h =
    token-Renews a own text (a.verify_token text) refl h
credential-Renews a own no_credential h = absurd (cc)

failed_update :
    (l : Limits) (a : Authentication) (k : Credential) (now : ℕ) (problem : UpdateError)
    → l.auth ≡ some a
    → (compare_user l.user_name (check_credential a k)).error ≡ some problem
    → update_authentication l k now
      ≡ (update_error (compare_user l.user_name (check_credential a k)).code problem, l)
unfolding update_authentication
failed_update l a k now problem on e = ground arith

-- Where authentication is on and an update of it changes anything of the session or is answered as a
-- success, the authentication service accepted the credential and gave the name of the user of the
-- session; or it raised an exception, for a password one without a text, for a token one without a
-- code.
pub update_authentication-Renews :
    (l : Limits) (a : Authentication) (k : Credential) (now : ℕ)
    → l.auth ≡ some a
    → (((update_authentication l k now).0 ≡ update_success)
        ⊎ ((update_authentication l k now).1 ≢ l))
    → Renews a l.user_name k
update_authentication-Renews l a k now on h =
    elim (Option-cases (compare_user l.user_name (check_credential a k)).error) [
      | inl e ↦ credential-Renews a l.user_name k e
      | inr (problem, e) ↦
          (let f = failed_update l a k now problem on e in
            elim h [
              | inl success ↦ absurd (cc)
              | inr changed ↦ absurd (changed (ap (λ (r : UpdateAnswer × Limits). r.1) f))
            ])
    ]
