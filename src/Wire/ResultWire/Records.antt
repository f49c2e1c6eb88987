-- ===== src/Wire/ResultWire/Records.antt =====
-- The server's side of a result set wire: it holds a queue of records, and a record in progress.
use mathlib.Core.Option
use tateyama.Base.{
  ℕ, ◌+◌, ◌-◌, ◌%◌, ◌^◌, ◌≤◌, ◌<◌, ◌≡◌, ◌≢◌, refl, sym, ap, ap₂, ◌∙◌, inl, inr, true, false, none,
  some, List, [], ◌∷◌, ◌++◌, arith, length, length-append, append_assoc, append-nil, All,
  All-append, Bool-cases, bind-eq-some,
}
use tateyama.Base.Words.{size_mod, add_size, sub_size}
use tateyama.Wire.Ring.{Memory, write_in_buffer}
use tateyama.Wire.Ring.Stream.{stream, stream-append}
use tateyama.Wire.Ring.Copy.{
  stream-write_in_buffer, stream-write_in_buffer_before, stream-write_in_buffer_after,
}
use tateyama.Wire.Header.{length_header_size, length_header_of, length_get_buffer}
use tateyama.Wire.Header.RoundTrip.{length-length_get_buffer}
use tateyama.Wire.Header.Kinds.{length_kind}
use tateyama.Wire.SimpleWire.{room}
use tateyama.Wire.SimpleWire.Valid.{IsValid}
use tateyama.Wire.ResultWire.{ResultWire, brand_new, write_bytes, write, flush, check_room}

-- the bytes of a record on the wire
abbrev pub encode : List ℕ → List ℕ
encode c = length_get_buffer (length_header_of (length c)) ++ c

abbrev pub encode_all : List (List ℕ) → List ℕ
encode_all [] = []
encode_all (c ∷ cs) = encode c ++ encode_all cs

abbrev pub IsRecord : List ℕ → Type 0
IsRecord c = (0 < length c) × (length c < 2 ^ 32)

-- The wire holds the records `cs`, not yet disposed of, and the bytes `current` of the next one.
pub record Holds (cs : List (List ℕ)) (current : List ℕ) (r : ResultWire) : Type 0 where
  pub valid : IsValid length_kind r.wire
  pub shown : r.wire.poped ≤ r.pushed_valid
  pub records :
      stream r.wire.capacity r.wire.mem r.wire.poped (r.pushed_valid - r.wire.poped) ≡ encode_all cs
  pub progress :
      stream r.wire.capacity r.wire.mem (r.pushed_valid + length_header_size) (length current)
      ≡ current
  pub pushed_open :
      r.continued ≡ true → r.wire.pushed ≡ r.pushed_valid + length_header_size + length current
  pub pushed_shut : r.continued ≡ false → (r.wire.pushed ≡ r.pushed_valid) × (length current ≡ 0)
  pub sizes : All IsRecord cs

encode_all-append :
    (cs : List (List ℕ)) (c : List ℕ) → encode_all (cs ++ c ∷ []) ≡ encode_all cs ++ encode c
encode_all-append [] c = append-nil (encode c)
encode_all-append (d ∷ cs) c =
    ap (◌++◌ (encode d)) (encode_all-append cs c)
    ∙ sym (append_assoc (encode d) (encode_all cs) (encode c))

pub length-encode : (c : List ℕ) → length (encode c) ≡ length_header_size + length c
length-encode c = omega (
  arith,
  length-append (length_get_buffer (length_header_of (length c))) c,
  length-length_get_buffer (length_header_of (length c)),
)

module _ {cs : List (List ℕ)} {current : List ℕ} where
  -- `brand_new`, with the flag that `write` sets next
  brand_new-Holds :
      {r r' : ResultWire} (v : Holds cs current r)
      → r.continued ≡ false
      → r.closed ≡ false
      → r.wire.pushed + length_header_size < size_mod
      → brand_new r ≡ some r'
      → Holds cs current (record r' { continued = true })
        × (r'.closed ≡ false)
        × (r'.wire.pushed ≡ r.wire.pushed + length_header_size)
  unfolding brand_new
  brand_new-Holds {r} {r'} v c o n e = (
    record {
      valid = ground (arith, v.valid);
      shown = ground (arith, v.shown);
      records = ground (arith, v.records);
      progress = ground (arith, v.progress);
      pushed_open = λ _. ground (arith, v.pushed_shut c);
      pushed_shut = λ f. cc;
      sizes = v.sizes;
    },
    ground arith,
    ground (arith, v.valid),
  )

  -- Bytes are appended to the record in progress.
  appended-Holds :
      {r : ResultWire} (v : Holds cs current r) (bs : List ℕ) (n : ℕ)
      → r.continued ≡ true
      → n ≡ r.wire.pushed + length bs
      → n < size_mod
      → length bs ≤ room length_kind r.wire
      → Holds cs (current ++ bs) (record r {
        wire = record (r.wire) {
          mem = write_in_buffer r.wire.capacity r.wire.mem (r.wire.pushed % r.wire.capacity) bs;
          pushed = n;
        };
      })
  appended-Holds {r} v bs n c e s h = record {
    valid = omega (arith, v.valid);
    shown = v.shown;
    records =
        stream-write_in_buffer_before r.wire.capacity r.wire.mem r.wire.poped
          (r.pushed_valid - r.wire.poped) r.wire.pushed bs (omega (arith, v.valid))
          (omega (arith, v.shown, at_end)) (omega (arith, v.valid, v.shown))
        ∙ v.records;
    progress =
        ap (stream r.wire.capacity after start) (length-append current bs)
        ∙ stream-append r.wire.capacity after start (length current) (length bs)
        ∙ ap₂ ◌++◌
            (stream-write_in_buffer_before r.wire.capacity r.wire.mem start (length current)
                r.wire.pushed bs (omega (arith, v.valid)) (omega (arith, at_end))
                (omega (arith, v.valid, v.shown))
              ∙ v.progress)
            (rw (sym at_end) (
              stream-write_in_buffer r.wire.capacity r.wire.mem r.wire.pushed bs
                (omega (arith, v.valid)) (omega (arith, v.valid))));
    pushed_open = λ _. omega (arith, at_end, length-append current bs);
    pushed_shut = λ f. cc;
    sizes = v.sizes;
  }
    where
      start : ℕ
      start = r.pushed_valid + length_header_size

      after : Memory
      after = write_in_buffer r.wire.capacity r.wire.mem (r.wire.pushed % r.wire.capacity) bs

      at_end : r.wire.pushed ≡ r.pushed_valid + length_header_size + length current
      at_end = v.pushed_open c

  write_bytes-Holds :
      {r r' : ResultWire} (v : Holds cs current r) (bs : List ℕ)
      → r.continued ≡ true
      → r.closed ≡ false
      → r.wire.pushed + length bs < size_mod
      → write_bytes r bs ≡ some r'
      → Holds cs (current ++ bs) r' × (r'.continued ≡ true) × (r'.closed ≡ false)
  unfolding write_bytes
  write_bytes-Holds {r} {r'} v bs c o n e =
      ground (arith, v.valid, appended-Holds v bs (add_size r.wire.pushed (length bs)))

  -- While the client keeps the wire open and the counters do not wrap, a `write` of one or more bytes
  -- that does not have to wait appends them to the record in progress, and begins a record if there is
  -- none. It leaves the finished records as they are.
  pub write-Holds :
      {r r' : ResultWire} (v : Holds cs current r) (bs : List ℕ)
      → r.closed ≡ false
      → 0 < length bs
      → r.wire.pushed + length_header_size + length bs < size_mod
      → write r bs ≡ some r'
      → Holds cs (current ++ bs) r' × (r'.continued ≡ true)
  unfolding write
  write-Holds {r} {r'} v bs o pos n e = elim (Bool-cases r.continued) [
    | inl c ↦
        (let step : write_bytes r bs ≡ some r' = ground arith in
          let (h, k, _) = write_bytes-Holds v bs c o (omega arith) step in (h, k))
    | inr c ↦
        (let step : Option.bind (brand_new r) (λ q. write_bytes (record q { continued = true }) bs)
              ≡ some r' =
            ground arith in
          let (q, begun, rest) = bind-eq-some (brand_new r) _ step in
          let (h, o', p) = brand_new-Holds v c o (omega arith) begun in
          let (h', k, _) = write_bytes-Holds h bs refl o' (omega (arith, p)) rest in (h', k))
  ]

  -- `flush` turns the bytes in progress, one or more and fewer than 2 ^ 32, into a record behind the
  -- others.
  pub flush-Holds :
      {r : ResultWire} (v : Holds cs current r)
      → r.continued ≡ true
      → IsRecord current
      → Holds (cs ++ current ∷ []) [] (flush r) × ((flush r).continued ≡ false)
  unfolding flush stream
  flush-Holds {r} v c sized = rw c (
    record {
      valid = omega (arith, v.valid);
      shown = omega (arith, v.shown, at_end);
      records =
          ap (stream r.wire.capacity after r.wire.poped) split
          ∙ stream-append r.wire.capacity after r.wire.poped old (length (encode current))
          ∙ ap₂ ◌++◌ finished new
          ∙ sym (encode_all-append cs current);
      progress = refl;
      pushed_open = λ f. cc;
      pushed_shut = λ _. (refl, refl);
      sizes = All-append IsRecord cs (current ∷ []) v.sizes (sized, tt);
    },
    refl,
  )
    where
      at_end : r.wire.pushed ≡ r.pushed_valid + length_header_size + length current
      at_end = v.pushed_open c

      old : ℕ
      old = r.pushed_valid - r.wire.poped

      counted : ℕ
      counted = sub_size r.wire.pushed (add_size r.pushed_valid length_header_size)

      count : counted ≡ length current
      count = omega (arith, at_end, v.valid)

      header : List ℕ
      header = length_get_buffer (length_header_of counted)

      sized_header : length header ≡ length_header_size
      sized_header = length-length_get_buffer (length_header_of counted)

      after : Memory
      after = write_in_buffer r.wire.capacity r.wire.mem (r.pushed_valid % r.wire.capacity) header

      split : r.wire.pushed - r.wire.poped ≡ old + length (encode current)
      split = omega (arith, v.shown, at_end, length-encode current)

      finished : stream r.wire.capacity after r.wire.poped old ≡ encode_all cs
      finished =
          stream-write_in_buffer_before r.wire.capacity r.wire.mem r.wire.poped old r.pushed_valid
            header (omega (arith, v.valid)) (omega (arith, v.shown))
            (omega (arith, v.valid, v.shown, at_end, sized_header))
          ∙ v.records

      body :
          stream r.wire.capacity after (r.pushed_valid + length_header_size) (length current)
          ≡ current
      body =
          stream-write_in_buffer_after r.wire.capacity r.wire.mem
            (r.pushed_valid + length_header_size) (length current) r.pushed_valid header
            (omega (arith, v.valid)) (omega (arith, v.valid, sized_header))
            (omega (arith, sized_header)) (omega (arith, v.valid, v.shown, at_end))
          ∙ v.progress

      head : stream r.wire.capacity after r.pushed_valid length_header_size ≡ header
      head =
          ap (stream r.wire.capacity after r.pushed_valid) (sym sized_header)
          ∙ stream-write_in_buffer r.wire.capacity r.wire.mem r.pushed_valid header
              (omega (arith, v.valid)) (omega (arith, v.valid, sized_header))

      place : r.wire.poped + old ≡ r.pushed_valid
      place = omega (arith, v.shown)

      new :
          stream r.wire.capacity after (r.wire.poped + old) (length (encode current))
          ≡ encode current
      new =
          ap₂ (stream r.wire.capacity after) place (length-encode current)
          ∙ stream-append r.wire.capacity after r.pushed_valid length_header_size (length current)
          ∙ ap₂ ◌++◌ (head ∙ ap (λ (n : ℕ). length_get_buffer (length_header_of n)) count) body

  -- Where `check_room` answers true on a wire that the client keeps open, `write` does not wait.
  pub check_room-write :
      {r : ResultWire} (v : Holds cs current r) (bs : List ℕ)
      → r.closed ≡ false
      → length bs + length_header_size < 2 ^ 32
      → check_room r (length bs) ≡ true
      → write r bs ≢ none
  unfolding write check_room brand_new write_bytes Option.bind
  check_room-write {r} v bs o small room_for = ground (arith, v.valid, v.pushed_open, v.pushed_shut)
