-- ===== src/Endpoint/Handshake/Authorised.antt =====
-- Who gets past the handshake where authentication is on, in
-- src/tateyama/endpoint/common/worker_common.h.
use mathlib.Core.Path.{subst}
use tateyama.Base.{◌≡◌, refl, ◌∙◌, sym, Bool, true, false, Option, none, some, arith}
use tateyama.Base.Text.{Str}
use tateyama.Endpoint.Handshake.{
  Authentication, Verdict, accepts, rejects, raises, Credential, encrypted_credential,
  remember_me_credential, no_credential, WireInformation, HandshakeMessage, Command, encryption_key,
  handshake_command, other_command, Request, Config, ConnectionType, Session, Flow, proceeds,
  returns, answers, handshake, run_command, establish, check_label, encrypted_result, token_result,
  check_credential, check_wire_information, reply, send_encryption_key, ◌>>=◌, set_names,
}

-- how a session came to its user name: by a password, by a token, or by none, after a password was
-- rejected
pub data Authorised (a : Authentication) (before : Option Str)
    : Credential → Option Str → Type 0 where
  by_password :
      (text name : Str)
      → a.verify_encrypted text ≡ accepts name
      → Authorised a before (encrypted_credential text) (some name)
  by_token :
      (text name : Str)
      → a.verify_token text ≡ accepts name
      → Authorised a before (remember_me_credential text) (some name)
  rejected :
      (text : Str)
      → a.verify_encrypted text ≡ rejects
      → Authorised a before (encrypted_credential text) before

encrypted_result-Authorised :
    (a : Authentication) (text : Str) (s s' : Session) (v : Verdict)
    → a.verify_encrypted text ≡ v
    → encrypted_result v s ≡ proceeds s'
    → Authorised a s.info.user_name (encrypted_credential text) s'.info.user_name
encrypted_result-Authorised a text s s' (accepts name) e p =
    let q : some name ≡ s'.info.user_name = cc in
    subst (Authorised a s.info.user_name (encrypted_credential text)) q (by_password text name e)
encrypted_result-Authorised a text s s' rejects e p =
    let q : s.info.user_name ≡ s'.info.user_name = cc in
    subst (Authorised a s.info.user_name (encrypted_credential text)) q (rejected text e)
encrypted_result-Authorised a text s s' (raises code message) e p = absurd (cc)

token_result-Authorised :
    (a : Authentication) (text : Str) (s s' : Session) (v : Verdict)
    → a.verify_token text ≡ v
    → token_result v s ≡ proceeds s'
    → Authorised a s.info.user_name (remember_me_credential text) s'.info.user_name
token_result-Authorised a text s s' (accepts name) e p =
    let q : some name ≡ s'.info.user_name = cc in
    subst (Authorised a s.info.user_name (remember_me_credential text)) q (by_token text name e)
token_result-Authorised a text s s' rejects e p = absurd (cc)
token_result-Authorised a text s s' (raises (some code) message) e p = absurd (cc)
token_result-Authorised a text s s' (raises none message) e p = absurd (cc)

check_credential-Authorised :
    (a : Authentication) (k : Credential) (s s' : Session)
    → check_credential a k s ≡ proceeds s'
    → Authorised a s.info.user_name k s'.info.user_name
unfolding check_credential
check_credential-Authorised a (encrypted_credential text) s s' e =
    encrypted_result-Authorised a text s s' (a.verify_encrypted text) refl e
check_credential-Authorised a (remember_me_credential text) s s' e =
    token_result-Authorised a text s s' (a.verify_token text) refl e
check_credential-Authorised a no_credential s s' e = absurd (cc)

check_wire_information-user_name :
    (t : ConnectionType) (w : WireInformation) (s s' : Session)
    → check_wire_information t w s ≡ proceeds s'
    → s'.info.user_name ≡ s.info.user_name
unfolding check_wire_information
check_wire_information-user_name t w s s' e = ground arith

reply-user_name :
    (c : Config) (rq : Request) (m : HandshakeMessage) (s s' : Session)
    → reply c rq m.blob_transfer_media s ≡ returns (answers true) s'
    → s'.info.user_name ≡ s.info.user_name
unfolding reply
reply-user_name c rq m s s' e = ground arith

-- a stage that does not itself answer true
>>=-true :
    (x : Flow) (f : Session → Flow) (s' : Session)
    → ((s : Session) → (x ≡ returns (answers true) s) → ⊥)
    → (x >>= f) ≡ returns (answers true) s'
    → (s : Session) × (x ≡ proceeds s) × (f s ≡ returns (answers true) s')
>>=-true (proceeds s) f s' h e = (s, refl, e)
>>=-true (returns o s) f s' h e = absurd (h s' e)

-- none of the stages before the answer answers true
check_label-not_true :
    (m : HandshakeMessage) (s t : Session) → check_label m s ≡ returns (answers true) t → ⊥
unfolding check_label
check_label-not_true m s t e = ground arith

check_label-same : (m : HandshakeMessage) (s t : Session) → check_label m s ≡ proceeds t → t ≡ s
unfolding check_label
check_label-same m s t e = ground arith

check_credential-not_true :
    (a : Authentication) (k : Credential) (s t : Session)
    → check_credential a k s ≡ returns (answers true) t
    → ⊥
unfolding check_credential
check_credential-not_true a k s t e = ground arith

check_wire_information-not_true :
    (c : ConnectionType) (w : WireInformation) (s t : Session)
    → check_wire_information c w s ≡ returns (answers true) t
    → ⊥
unfolding check_wire_information
check_wire_information-not_true c w s t e = ground arith

establish_on :
    (c : Config) (a : Authentication) (rq : Request) (m : HandshakeMessage) (s : Session)
    → c.auth ≡ some a
    → establish c rq m s ≡ (
        check_label m s >>= λ (l : Session).
        check_credential a m.credential (set_names m l) >>= λ (v : Session).
        check_wire_information c.connection_type m.wire_information v >>= λ (w : Session).
        reply c rq m.blob_transfer_media w)
unfolding establish
establish_on c a rq m s on = rw (establish, on) refl

establish-Authorised :
    (c : Config) (a : Authentication) (rq : Request) (m : HandshakeMessage) (s s' : Session)
    → c.auth ≡ some a
    → establish c rq m s ≡ returns (answers true) s'
    → Authorised a s.info.user_name m.credential s'.info.user_name
unfolding establish
establish-Authorised c a rq m s s' on e =
    let (l, el, e1) =
      >>=-true (check_label m s) _ s' (check_label-not_true m s)
        (sym (establish_on c a rq m s on) ∙ e) in
    let (v, ev, e2) =
      >>=-true (check_credential a m.credential (set_names m l)) _ s'
        (check_credential-not_true a m.credential (set_names m l)) e1 in
    let (w, ew, e3) =
      >>=-true (check_wire_information c.connection_type m.wire_information v) _ s'
        (check_wire_information-not_true c.connection_type m.wire_information v) e2 in
    let named = check_label-same m s l el in
    let verified = check_credential-Authorised a m.credential (set_names m l) v ev in
    let same : v.info.user_name ≡ s'.info.user_name = sym (
      reply-user_name c rq m w s' e3
      ∙ check_wire_information-user_name c.connection_type m.wire_information v w ew) in
    subst (Authorised a s.info.user_name m.credential) same (
      subst (λ (t : Session). Authorised a t.info.user_name m.credential v.info.user_name) named
        verified)

abbrev pub Establishes : Authentication → Option Str → Option Request → Option Str → Type 0
Establishes a before parsed after =
    (rq : Request) × (m : HandshakeMessage) × (parsed ≡ some rq)
    × (rq.command ≡ handshake_command m)
    × Authorised a before m.credential after

run_command-Authorised :
    (c : Config) (a : Authentication) (rq : Request) (k : Command) (s s' : Session)
    → rq.command ≡ k
    → c.auth ≡ some a
    → run_command c rq k s ≡ returns (answers true) s'
    → Establishes a s.info.user_name (some rq) s'.info.user_name
unfolding run_command send_encryption_key
run_command-Authorised c a rq encryption_key s s' k on e = absurd (ground arith)
run_command-Authorised c a rq (handshake_command m) s s' k on e =
    (rq, m, refl, k, establish-Authorised c a rq m s s' on e)
run_command-Authorised c a rq other_command s s' k on e = absurd (cc)

-- Where authentication is on and the handshake answers true, the client sent a handshake, and its
-- credential is a password or a token that the authentication service accepted with the user name
-- that the session has then, or a password that it rejected: then the user name of the session is
-- what it was before.
pub handshake-Authorised :
    (c : Config) (a : Authentication) (b : Bool) (parsed : Option Request) (s s' : Session)
    → c.auth ≡ some a
    → handshake c b parsed s ≡ returns (answers true) s'
    → Establishes a s.info.user_name parsed s'.info.user_name
unfolding handshake
handshake-Authorised c a false parsed s s' on e = absurd (cc)
handshake-Authorised c a true none s s' on e = absurd (cc)
handshake-Authorised c a true (some rq) s s' on e =
    run_command-Authorised c a rq rq.command s s' refl on (ground arith)
