-- ===== src/Endpoint/Stream/Await/Sequence.antt =====
-- `stream_socket::await` over the messages with which a client begins: greetings, each of which is
-- answered, and then a request.
use mathlib.Core.Path.{subst}
use tateyama.Base.{
  ℕ, ◌^◌, ◌<◌, ◌≡◌, refl, sym, ap, ◌∙◌, List, [], ◌∷◌, ◌++◌, length, replicate, arith, append_assoc,
  append-nil, some, false, All,
}
use tateyama.Base.Text.{Str}
use tateyama.Endpoint.Stream.{
  Socket, Segment, frame, recv_payload, send_response, got, request_session_payload,
  request_session_hello, response_session_hello_ok,
}
use tateyama.Endpoint.Stream.Receive.{Carries}
use tateyama.Endpoint.Stream.Await.{
  await, round, dispatch, Answer, Round, Poll, readable, Vars, continues, finishes, payload,
  minus_one,
}
use tateyama.Endpoint.Stream.Await.Frames.{
  Reads, read_head, recv_payload_lem, dispatch_payload, kept,
}

-- the greetings of a client, with what each of them carries
abbrev pub greetings : List Str → Str
greetings [] = []
greetings (q ∷ qs) = frame request_session_hello 0 q ++ greetings qs

-- and the answers
abbrev pub hello_oks : List Str → Str
hello_oks [] = []
hello_oks (q ∷ qs) = frame response_session_hello_ok 0 minus_one ++ hello_oks qs

-- what the payload variable holds after the greetings
abbrev pub last_kept : Str → List Str → Str
last_kept before [] = before
last_kept before (q ∷ qs) = last_kept (kept before q) qs

abbrev pub Short : Str → Type 0
Short q = length q < 2 ^ 32

dispatch_hello :
    (v : Vars) (s : Socket) (p : Str) (mid : List Segment)
    → v.info ≡ request_session_hello
    → s.session_closed ≡ false
    → recv_payload v.payload s.incoming ≡ (got p, mid)
    → dispatch v s ≡ (
      continues,
      record v { payload = p },
      record s { incoming = mid; sent = s.sent ++ frame response_session_hello_ok 0 minus_one },
    )
unfolding dispatch send_response
dispatch_hello v s p mid i c e = ground arith

-- a round that reads a whole message
round_of :
    (v : Vars) (s : Socket) (info slot : ℕ) (p rest : Str) (result : Round) (sent : Str)
    → ((mid after : List Segment)
        → recv_payload v.payload mid ≡ (got (kept v.payload p), after)
        → dispatch (record v { info = info; slot = slot }) (record s { incoming = mid }) ≡ (
          result,
          record { info = info; slot = slot; payload = kept v.payload p },
          record s { incoming = after; sent = sent },
        ))
    → Carries s.incoming (frame info slot p ++ rest)
    → slot < 2 ^ 16
    → length p < 2 ^ 32
    → (after : List Segment) × (round readable v s ≡ (
      result,
      record { info = info; slot = slot; payload = kept v.payload p },
      record s { incoming = after; sent = sent },
    ))
      × Carries after rest
unfolding round Reads
round_of v s info slot p rest result sent step c h n =
    let (mid, q, k) = read_head v s info slot p rest c h in
    let (after, q', k') = recv_payload_lem p v.payload rest mid k n in
    (after, q ∙ step mid after q', k')

abbrev pub Awaits : List Poll → Vars → Socket → Str → Str → ℕ → Str → Type 0
Awaits polls v s sent p slot rest =
    (after : List Segment) × (await polls v s
      ≡ some (
        finishes payload,
        record { info = request_session_payload; slot = slot; payload = p },
        record s { incoming = after; sent = sent },
      ))
    × Carries after rest

await-finishes :
    (ps : List Poll) (v : Vars) (s : Socket) (o : Answer)
    → round readable v s ≡ o
    → o.0 ≡ finishes payload
    → await (readable ∷ ps) v s ≡ some o
unfolding await
await-finishes ps v s o e f = ground arith

await-continues :
    (ps : List Poll) (v v' : Vars) (s s' : Socket)
    → round readable v s ≡ (continues, v', s')
    → await (readable ∷ ps) v s ≡ await ps v' s'
unfolding await
await-continues ps v v' s s' e = ground arith

last_message :
    (ps : List Poll) (v : Vars) (s : Socket) (slot : ℕ) (p rest : Str)
    → Carries s.incoming (frame request_session_payload slot p ++ rest)
    → slot < 2 ^ 16
    → length p < 2 ^ 32
    → Awaits (readable ∷ ps) v s s.sent (kept v.payload p) slot rest
last_message ps v s slot p rest c h n =
    let (after, q, k) =
      round_of v s request_session_payload slot p rest (finishes payload) s.sent
        (λ (mid after : List Segment) e.
          dispatch_payload (record v { info = request_session_payload; slot = slot })
            (record s { incoming = mid }) (kept v.payload p) after refl e)
        c h n in
    (after, await-finishes ps v s _ q refl, k)

greeting :
    (v : Vars) (s : Socket) (q rest : Str)
    → Carries s.incoming (frame request_session_hello 0 q ++ rest)
    → s.session_closed ≡ false
    → length q < 2 ^ 32
    → (after : List Segment) × (round readable v s ≡ (
      continues,
      record { info = request_session_hello; slot = 0; payload = kept v.payload q },
      record s { incoming = after; sent = s.sent ++ frame response_session_hello_ok 0 minus_one },
    ))
      × Carries after rest
greeting v s q rest c o n =
    round_of v s request_session_hello 0 q rest continues
      (s.sent ++ frame response_session_hello_ok 0 minus_one)
      (λ (mid after : List Segment) e.
        dispatch_hello (record v { info = request_session_hello; slot = 0 })
          (record s { incoming = mid }) (kept v.payload q) after refl o e)
      c (omega arith) n

-- Where the connection delivers the greetings of a client and then a request, in pieces of any size,
-- `await` answers each greeting, and gives the slot and the bytes of the request and leaves what
-- follows; but an empty request leaves in the payload what the last greeting that was not empty
-- carried.
pub await-greetings :
    (qs : List Str) (ps : List Poll) (v : Vars) (s : Socket) (slot : ℕ) (p rest : Str)
    → Carries s.incoming (greetings qs ++ (frame request_session_payload slot p ++ rest))
    → s.session_closed ≡ false
    → All Short qs
    → slot < 2 ^ 16
    → length p < 2 ^ 32
    → Awaits
        (replicate (length qs) readable ++ (readable ∷ ps))
        v
        s
        (s.sent ++ hello_oks qs)
        (kept (last_kept v.payload qs) p)
        slot
        rest
await-greetings [] ps v s slot p rest c o a h n =
    subst (λ (t : Str). Awaits (readable ∷ ps) v s t (kept v.payload p) slot rest)
      (sym (append-nil s.sent)) (last_message ps v s slot p rest c h n)
await-greetings (q ∷ qs) ps v s slot p rest c o (a, as_) h n =
    let tail : Str = greetings qs ++ (frame request_session_payload slot p ++ rest) in
    let (mid, e, k) =
      greeting v s q tail
        (subst (Carries s.incoming)
          (append_assoc (frame request_session_hello 0 q) (greetings qs)
            (frame request_session_payload slot p ++ rest))
          c)
        o a in
    let polls : List Poll = replicate (length qs) readable ++ (readable ∷ ps) in
    let v' : Vars = record { info = request_session_hello; slot = 0; payload = kept v.payload q } in
    let s' : Socket = record s {
      incoming = mid;
      sent = s.sent ++ frame response_session_hello_ok 0 minus_one;
    } in
    let (after, e', k') = await-greetings qs ps v' s' slot p rest k o as_ h n in
    (
      after,
      (await-continues polls v v' s s' e ∙ e')
          ∙ ap
              (λ (t : Str). some (
                finishes payload,
                record {
                  info = request_session_payload;
                  slot = slot;
                  payload = kept (last_kept v'.payload qs) p;
                },
                record s { incoming = after; sent = t },
              ))
              (append_assoc s.sent (frame response_session_hello_ok 0 minus_one) (hello_oks qs)),
      k',
    )
