-- ===== src/Endpoint/Stream/Slots.antt =====
-- What the stream socket sends for the slot of a result set that the client has closed.
use mathlib.Core.Option
use tateyama.Base.{
  ℕ, zero, suc, ◌≡◌, refl, ap, ◌∙◌, false, Option, some, List, [], ◌∷◌, ◌++◌, get_elem?, set,
  append_assoc, arith,
}
use tateyama.Base.Text.{Str}
use tateyama.Endpoint.Stream.{
  Socket, SendingStatus, sending, closed, finished, send_result_set, send_result_set_delimiter,
  send_result_set_bye, send_response, delimiter, frame, release_slot, response_result_set_bye,
}

-- records of the writers of one result set
unfoldable pub send_all : ℕ → List (ℕ × Str) → Socket → Option Socket
unfolding send_result_set
send_all slot [] s = some s
send_all slot ((writer, payload) ∷ ps) s =
    Option.bind (send_result_set s slot writer payload) λ s'. send_all slot ps s'

get_elem?-set :
    (xs : List SendingStatus) (i : ℕ) (a b : SendingStatus)
    → get_elem? xs i ≡ some a
    → get_elem? (set xs i b) i ≡ some b
get_elem?-set [] i a b e = absurd (cc)
get_elem?-set (x ∷ xs) zero a b e = refl
get_elem?-set (x ∷ xs) (suc i) a b e = get_elem?-set xs i a b e

send_to_finished :
    (s : Socket) (slot writer : ℕ) (payload : Str)
    → get_elem? s.statuses slot ≡ some finished
    → send_result_set s slot writer payload ≡ some s
unfolding send_result_set
send_to_finished s slot writer payload e = ground arith

send_all-finished :
    (slot : ℕ) (ps : List (ℕ × Str)) (s : Socket)
    → get_elem? s.statuses slot ≡ some finished
    → send_all slot ps s ≡ some s
unfolding send_all Option.bind
send_all-finished slot [] s e = refl
send_all-finished slot ((writer, payload) ∷ ps) s e =
    ap (λ (o : Option Socket). Option.bind o λ s'. send_all slot ps s')
      (send_to_finished s slot writer payload e)
    ∙ send_all-finished slot ps s e

abbrev after_bye_ok : Socket → ℕ → Socket
after_bye_ok s slot = record s { statuses = set s.statuses slot closed }

abbrev after_early_end : Socket → ℕ → ℕ → Socket
after_early_end s slot writer = record s {
  statuses = set s.statuses slot finished;
  sent = s.sent ++ (delimiter slot writer ++ frame response_result_set_bye slot []);
}

release_sending :
    (s : Socket) (slot : ℕ)
    → get_elem? s.statuses slot ≡ some sending
    → release_slot s slot ≡ some (after_bye_ok s slot)
unfolding release_slot
release_sending s slot e = ground arith

send_to_closed :
    (s : Socket) (slot writer : ℕ) (payload : Str)
    → get_elem? s.statuses slot ≡ some closed
    → s.session_closed ≡ false
    → send_result_set s slot writer payload ≡ some (after_early_end s slot writer)
unfolding send_result_set send_result_set_bye send_result_set_delimiter send_response
send_to_closed s slot writer payload e o =
    ground
      (arith, append_assoc s.sent (delimiter slot writer) (frame response_result_set_bye slot []))

-- Where the client closes the result set of a slot that is sending, and the session is open, the
-- first of the records that its writers send then is replaced by an empty record and the end of the
-- result set, and the others are dropped: nothing else is sent, and the slot is finished.
pub release_slot-send_all :
    (s : Socket) (slot writer : ℕ) (payload : Str) (ps : List (ℕ × Str))
    → get_elem? s.statuses slot ≡ some sending
    → s.session_closed ≡ false
    → (released : Socket) × (after : Socket) × (release_slot s slot ≡ some released)
      × (send_all slot ((writer, payload) ∷ ps) released ≡ some after)
      × (after.sent ≡ s.sent ++ (delimiter slot writer ++ frame response_result_set_bye slot []))
      × (get_elem? after.statuses slot ≡ some finished)
unfolding send_all Option.bind
release_slot-send_all s slot writer payload ps e o =
    let released = after_bye_ok s slot in
    let after = after_early_end released slot writer in
    let c = get_elem?-set s.statuses slot sending closed e in
    let f = get_elem?-set released.statuses slot closed finished c in
    (
      released,
      after,
      release_sending s slot e,
      ap (λ (r : Option Socket). Option.bind r λ s'. send_all slot ps s')
            (send_to_closed released slot writer payload c o)
          ∙ send_all-finished slot ps after f,
      refl,
      f,
    )
