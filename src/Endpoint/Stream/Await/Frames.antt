-- ===== src/Endpoint/Stream/Await/Frames.antt =====
-- Messages that a client writes come out of `stream_socket::await` as they went in.
use mathlib.Core.Path.{subst}
use tateyama.Base.{
  ℕ, ◌+◌, ◌*◌, ◌^◌, ◌<◌, ◌≡◌, refl, ap, ap₂, ◌∙◌, List, [], ◌∷◌, ◌++◌, length, arith, append_assoc,
  take-append, drop-append, length-append,
}
use tateyama.Base.Text.{Str}
use tateyama.Wire.Header.{bytes_of, value_of}
use tateyama.Wire.Header.RoundTrip.{value_of-bytes_of_2, value_of-bytes_of_4}
use tateyama.Endpoint.Stream.{
  Socket, Segment, frame, payload_bytes, recv_bytes, recv_payload, Received, got,
  request_session_payload,
}
use tateyama.Endpoint.Stream.Receive.{Carries, Takes, recv_bytes-Carries}
use tateyama.Endpoint.Stream.Await.{read_info, read_slot, dispatch, Vars, finishes, payload}

abbrev pub Gets :
    (ℕ → List Segment → Received Str × List Segment) → ℕ → List Segment → Str → Str → Type 0
Gets f size ss chunk rest =
    (after : List Segment) × (f size ss ≡ (got chunk, after)) × Carries after rest

chunk-Takes :
    (chunk rest : Str) (size : ℕ) (ss : List Segment)
    → size ≡ length chunk
    → Takes size ss (chunk ++ rest)
    → Gets recv_bytes size ss chunk rest
chunk-Takes chunk rest size ss n (after, q, k) = (
  after,
  rw (q, take-append size chunk rest n) refl,
  subst (Carries after) (drop-append size chunk rest n) k,
)

-- a chunk in front, of a length that is not 0
recv_chunk :
    (chunk rest : Str) (size : ℕ) (ss : List Segment)
    → Carries ss (chunk ++ rest)
    → size ≡ length chunk
    → 0 < size
    → Gets recv_bytes size ss chunk rest
recv_chunk chunk rest size ss c n pos =
    chunk-Takes chunk rest size ss n
      (recv_bytes-Carries size ss (chunk ++ rest) c (omega (arith, length-append chunk rest)) pos)

recv_payload_of_head :
    (before h : Str) (ss mid : List Segment)
    → recv_bytes 4 ss ≡ (got h, mid)
    → 0 < value_of h
    → recv_payload before ss ≡ recv_bytes (value_of h) mid
unfolding recv_payload
recv_payload_of_head before h ss mid e pos = ground arith

-- what `recv(payload)` leaves in a variable that held `before`
abbrev pub kept : Str → Str → Str
kept before [] = before
kept before (b ∷ bs) = b ∷ bs

payload_of_head :
    (p before rest : Str) (ss : List Segment)
    → length p < 2 ^ 32
    → 0 < length p
    → Gets recv_bytes 4 ss (bytes_of 4 (length p)) (p ++ rest)
    → (after : List Segment) × (recv_payload before ss ≡ (got p, after)) × Carries after rest
payload_of_head p before rest ss n pos (mid, q, k) =
    let v : value_of (bytes_of 4 (length p)) ≡ length p = value_of-bytes_of_4 (length p) n in
    let e : recv_payload before ss ≡ recv_bytes (length p) mid =
      recv_payload_of_head before (bytes_of 4 (length p)) ss mid q (omega (arith, v))
      ∙ ap (λ (n : ℕ). recv_bytes n mid) v in
    let (after, q', k') = recv_chunk p rest (length p) mid k refl pos in (after, e ∙ q', k')

empty_of_head :
    (before rest : Str) (ss : List Segment)
    → Gets recv_bytes 4 ss (bytes_of 4 0) rest
    → (after : List Segment) × (recv_payload before ss ≡ (got before, after)) × Carries after rest
unfolding recv_payload
empty_of_head before rest ss (mid, q, k) =
    (mid, ground (arith, value_of-bytes_of_4 0 (omega arith)), k)

pub recv_payload_lem :
    (p before rest : Str) (ss : List Segment)
    → Carries ss (payload_bytes p ++ rest)
    → length p < 2 ^ 32
    → (after : List Segment) × (recv_payload before ss ≡ (got (kept before p), after))
      × Carries after rest
unfolding payload_bytes
recv_payload_lem [] before rest ss c n =
    empty_of_head before rest ss
      (recv_chunk (bytes_of 4 0) rest 4 ss c (unfold bytes_of in refl) (omega arith))
recv_payload_lem (b ∷ bs) before rest ss c n =
    payload_of_head (b ∷ bs) before rest ss n (omega arith) (
      recv_chunk (bytes_of 4 (length (b ∷ bs))) ((b ∷ bs) ++ rest) 4 ss
        (subst (Carries ss) (append_assoc (bytes_of 4 (length (b ∷ bs))) (b ∷ bs) rest) c)
        (unfold bytes_of in refl) (omega arith))

read_info-read_slot :
    (v : Vars) (s : Socket) (b : Str) (mid : List Segment)
    → recv_bytes 1 s.incoming ≡ (got b, mid)
    → read_info v s ≡ read_slot (record v { info = value_of b }) (record s { incoming = mid })
unfolding read_info
read_info-read_slot v s b mid e = ground arith

read_slot-dispatch :
    (v : Vars) (s : Socket) (b : Str) (mid : List Segment)
    → recv_bytes 2 s.incoming ≡ (got b, mid)
    → read_slot v s ≡ dispatch (record v { slot = value_of b }) (record s { incoming = mid })
unfolding read_slot
read_slot-dispatch v s b mid e = ground arith

pub dispatch_payload :
    (v : Vars) (s : Socket) (p : Str) (mid : List Segment)
    → v.info ≡ request_session_payload
    → recv_payload v.payload s.incoming ≡ (got p, mid)
    → dispatch v s ≡ (finishes payload, record v { payload = p }, record s { incoming = mid })
unfolding dispatch
dispatch_payload v s p mid i e = ground arith

unfoldable pub Reads : Vars → Socket → ℕ → ℕ → Str → Type 0
Reads v s info slot rest =
    (mid : List Segment) × (read_info v s
      ≡ dispatch (record v { info = info; slot = slot }) (record s { incoming = mid }))
    × Carries mid rest

slot-Reads :
    (v : Vars) (s : Socket) (info slot : ℕ) (rest : Str)
    → slot < 2 ^ 16
    → (first : Gets recv_bytes 1 s.incoming (info ∷ []) (bytes_of 2 slot ++ rest))
    → Gets recv_bytes 2 first.0 (bytes_of 2 slot) rest
    → Reads v s info slot rest
unfolding Reads value_of
slot-Reads v s info slot rest h (a, q, k) (b, q', k') = (
  b,
  (read_info-read_slot v s (info ∷ []) a q
        ∙ read_slot-dispatch (record v { info = info + 256 * 0 }) (record s { incoming = a })
            (bytes_of 2 slot) b q')
      ∙ ap₂ (λ (i n : ℕ). dispatch (record v { info = i; slot = n }) (record s { incoming = b }))
          (omega arith) (value_of-bytes_of_2 slot h),
  k',
)

-- the type and the slot of a message
pub read_head :
    (v : Vars) (s : Socket) (info slot : ℕ) (p rest : Str)
    → Carries s.incoming (frame info slot p ++ rest)
    → slot < 2 ^ 16
    → Reads v s info slot (payload_bytes p ++ rest)
unfolding frame
read_head v s info slot p rest c h =
    let first =
      recv_chunk (info ∷ []) (bytes_of 2 slot ++ (payload_bytes p ++ rest)) 1 s.incoming
        (subst (Carries s.incoming)
          (ap (◌∷◌ info) (append_assoc (bytes_of 2 slot) (payload_bytes p) rest)) c)
        refl (omega arith) in
    slot-Reads v s info slot (payload_bytes p ++ rest) h first (
      recv_chunk (bytes_of 2 slot) (payload_bytes p ++ rest) 2 first.0 first.2
        (unfold bytes_of in refl) (omega arith))
