-- ===== src/Wire/ResultWire/Client.antt =====
-- The client's side of a result set wire: the oldest record, and its disposal.
use native.Mathlib.Nat.{mod-lt}
use tateyama.Base.{
  ℕ, ◌+◌, ◌-◌, ◌/◌, ◌%◌, ◌^◌, ◌≤◌, ◌<◌, ◌≡◌, refl, sym, ap, ◌∙◌, inl, inr, List, ◌∷◌, ◌++◌, arith,
  length, length-append, append-nil, Bool-cases, ==_of_eq, ==_of_ne,
}
use native.Mathlib.Decide.{ℕ_discrete}
use tateyama.Wire.ResultWire.Laps.{same_lap_fits, other_lap, buffer_end_lem, load_round}
use tateyama.Base.Words.{size_mod, add_size, sub_size}
use tateyama.Wire.Ring.Stream.{stream, stream-append, length-stream, load-eq-stream}
use tateyama.Wire.Ring.Copy.{read_from_buffer-eq-stream}
use tateyama.Wire.Header.{
  length_header_size, length_header_of, length_get_buffer, length_from_buffer,
}
use tateyama.Wire.Header.RoundTrip.{length-length_get_buffer, length_header_round_trip}
use tateyama.Wire.Header.Kinds.{length_kind}
use tateyama.Wire.SimpleWire.{Wire, copy_header}
use tateyama.Wire.SimpleWire.Chunks.{copy_header_lem}
use tateyama.Wire.Transfer.Chunking.{append_injective}
use tateyama.Wire.ResultWire.{ResultWire, get_chunk, get_chunk_of, dispose}
use tateyama.Wire.ResultWire.Records.{Holds, encode, encode_all, length-encode}

chunk_bytes :
    (w : Wire length_kind) (pv n : ℕ)
    → w.header_received.len ≡ n
    → 0 < n
    → length_header_size ≤ w.capacity
    → w.capacity < 2 ^ 62
    → w.poped + length_header_size + n ≤ pv
    → pv ≤ w.poped + w.capacity
    → pv < size_mod
    → let chunk = get_chunk_of w pv in
      chunk.first ++ chunk.wrap_around ≡ stream w.capacity w.mem (w.poped + length_header_size) n
unfolding get_chunk_of
chunk_bytes w pv n e pos roomy small whole fits counted =
    let a = w.poped + length_header_size in
    let start : add_size w.poped length_header_size ≡ a = omega arith in
    let last : sub_size (add_size a n) 1 ≡ a + n - 1 = omega arith in
    rw (e, start, last)
      (elim (ℕ_discrete (a / w.capacity) ((a + n - 1) / w.capacity)) [
        | yes same ↦ rw (==_of_eq same) (
            append-nil _
            ∙ load-eq-stream w.capacity w.mem a (a % w.capacity) n (omega arith) refl
                (same_lap_fits w.capacity a n (omega arith) pos same))
        | no other ↦
            (let round = other_lap w.capacity a n (omega arith) pos other in
              let end =
                buffer_end_lem w.capacity a n (omega arith) pos pv round whole (omega arith) in
              let first_length : sub_size (a + (w.capacity - a % w.capacity)) a
                  ≡ w.capacity - a % w.capacity =
                omega (arith, mod-lt a {m = w.capacity} (omega arith)) in
              let place : add_size w.poped
                    (add_size length_header_size (w.capacity - a % w.capacity))
                  ≡ a + (w.capacity - a % w.capacity) =
                omega (arith, mod-lt a {m = w.capacity} (omega arith)) in
              rw (==_of_ne other, end, first_length, place)
                (load_round w.capacity w.mem a n (omega arith) (omega arith) round))
      ])

at_end :
    {cs : List (List ℕ)} {current : List ℕ} {r : ResultWire}
    → Holds cs current r
    → r.pushed_valid ≤ r.wire.pushed
at_end {r} v = elim (Bool-cases r.continued) [
  | inl t ↦ omega (arith, v.pushed_open t)
  | inr f ↦ omega (arith, v.pushed_shut f)
]

module _ {c : List ℕ} {cs : List (List ℕ)} {current : List ℕ} where
  -- the parts of the oldest record
  front_record :
      {r : ResultWire} (v : Holds (c ∷ cs) current r)
      → let w = r.wire in
        (length_header_size + length c ≤ r.pushed_valid - w.poped)
        × (stream w.capacity w.mem w.poped length_header_size
            ≡ length_get_buffer (length_header_of (length c)))
        × (stream w.capacity w.mem (w.poped + length_header_size) (length c) ≡ c)
        × (stream w.capacity w.mem
              (w.poped + (length_header_size + length c))
              (r.pushed_valid - (w.poped + (length_header_size + length c)))
            ≡ encode_all cs)
  front_record {r} v =
      let w = r.wire in
      let n = r.pushed_valid - w.poped in
      let total : n ≡ length (encode c) + length (encode_all cs) = omega (
        arith,
        length-stream w.capacity w.mem w.poped n,
        ap length v.records,
        length-append (encode c) (encode_all cs),
      ) in
      let long = length-encode c in
      let split : n
          ≡ length_header_size
            + length c
            + (r.pushed_valid - (w.poped + (length_header_size + length c))) =
        omega arith in
      let (first, rest) =
        append_injective (stream w.capacity w.mem w.poped (length_header_size + length c))
          (encode c) {us = stream w.capacity w.mem (w.poped + (length_header_size + length c)) _}
          {vs = encode_all cs}
          (length-stream w.capacity w.mem w.poped (length_header_size + length c) ∙ sym long)
          (sym (stream-append w.capacity w.mem w.poped (length_header_size + length c) _)
            ∙ ap (stream w.capacity w.mem w.poped) (sym split)
            ∙ v.records) in
      let (head, body) =
        append_injective (stream w.capacity w.mem w.poped length_header_size)
          (length_get_buffer (length_header_of (length c)))
          {us = stream w.capacity w.mem (w.poped + length_header_size) (length c)} {vs = c}
          (length-stream w.capacity w.mem w.poped length_header_size
            ∙ sym (length-length_get_buffer (length_header_of (length c))))
          (sym (stream-append w.capacity w.mem w.poped length_header_size (length c)) ∙ first) in
      (omega arith, head, body, rest)

  -- `copy_header` reads the length of the oldest record.
  copy_header_front :
      {r : ResultWire} (v : Holds (c ∷ cs) current r)
      → copy_header length_kind r.wire
        ≡ record (r.wire) { header_received = record { len = length c } }
  copy_header_front {r} v =
      let w = r.wire in
      let (enough, head, body, rest) = front_record v in
      let same : length c % 2 ^ 32 ≡ length c = omega (arith, v.sizes.0) in
      copy_header_lem length_kind v.valid
      ∙ ap (λ (b : List ℕ). record w { header_received = length_from_buffer b })
          (read_from_buffer-eq-stream w.capacity w.mem w.poped length_header_size
              (omega (arith, v.valid)) (omega (arith, v.valid))
            ∙ head)
      ∙ ap
          (λ (n : ℕ). record w {
            header_received = length_from_buffer (length_get_buffer (record { len = n }));
          })
          same
      ∙ ap (λ (h : length_kind.Header). record w { header_received = h })
          (length_header_round_trip (record { len = length c }) (omega (arith, v.sizes.0)))

  -- `dispose` removes the oldest record, and nothing else.
  pub dispose-Holds : {r : ResultWire} (v : Holds (c ∷ cs) current r) → Holds cs current (dispose r)
  unfolding dispose
  dispose-Holds {r} v =
      let (enough, head, body, rest) = front_record v in
      let next : add_size r.wire.poped (length c + length_header_size)
          ≡ r.wire.poped + (length_header_size + length c) =
        omega (arith, v.valid, v.shown, at_end v) in
      rw (copy_header_front v, next)
        (record {
          valid = omega (arith, v.valid, v.shown, at_end v);
          shown = omega (arith, v.shown);
          records = rest;
          progress = v.progress;
          pushed_open = v.pushed_open;
          pushed_shut = v.pushed_shut;
          sizes = v.sizes.1;
        })

  -- The two parts of the chunk that the client is given are, together, the oldest record, whether
  -- or not it goes round the ring's end.
  pub get_chunk-front :
      {r : ResultWire} (v : Holds (c ∷ cs) current r)
      → let chunk = (get_chunk r).0 in chunk.first ++ chunk.wrap_around ≡ c
  unfolding get_chunk
  get_chunk-front {r} v =
      let (enough, head, body, rest) = front_record v in
      rw (copy_header_front v) (
        chunk_bytes (record (r.wire) { header_received = record { len = length c } }) r.pushed_valid
          (length c) refl (v.sizes.0.0) (omega (arith, v.valid)) (omega (arith, v.valid))
          (omega (arith, v.shown)) (omega (arith, v.valid, at_end v))
          (omega (arith, v.valid, at_end v))
        ∙ body)
