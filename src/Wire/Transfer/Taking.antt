-- ===== src/Wire/Transfer/Taking.antt =====
-- The reader's steps keep the invariant of a transfer.
use tateyama.Base.{
  ℕ, ◌+◌, ◌-◌, ◌≤◌, ◌<◌, ◌≡◌, ◌≢◌, refl, sym, ap, ap₂, ◌∙◌, inl, inr, some, List, [], ◌∷◌, ◌++◌,
  arith, length, take, drop, append_assoc, append-nil, length-append, length-take, length-drop,
  nil_of_length, map-eq-some, take-append-drop, All, Bool-cases, ltb,
}
use tateyama.Wire.Header.{HeaderKind}
use tateyama.Wire.SimpleWire.{
  Wire, Reading, stored, min_size, read_more, read_first, read_rest, copy_header,
}
use tateyama.Wire.SimpleWire.Valid.{IsValid, contents, stored-length}
use tateyama.Wire.SimpleWire.Chunks.{
  Pops, part, pop-Pops, length-part, read_rest-Pops, read_first-Pops, copy_header_lem,
}
use tateyama.Wire.Transfer.{Message, Reader, between, within, Channel, receive, took, receive_from}
use tateyama.Wire.Transfer.Chunking.{flatten, append_injective, chunks, chunks-nil, chunks-cons}
use tateyama.Wire.Transfer.Invariant.{IsSound, message_chunks, all_chunks, Reads, Inv}

-- the first of the chunks in a queue that holds any bytes
pub front_chunk :
    (queue rest : List (List ℕ)) (x : List ℕ) (xs : List (List ℕ))
    → 0 < length (flatten queue)
    → queue ++ rest ≡ x ∷ xs
    → (q : List (List ℕ)) × (queue ≡ x ∷ q) × (q ++ rest ≡ xs)
front_chunk [] rest x xs h e = absurd (omega arith)
front_chunk (y ∷ q) rest x xs h e = (q, cc, cc)

module _ (k : HeaderKind) (capacity : ℕ) (hc : 0 < capacity) where
  abbrev message : k.Header → List ℕ → Message k
  message h b = record { header = h; body = b }

  -- The chunk at the front of the queue is gone, and `tail` is left of the message `m`.
  took-Inv :
      {all : List (Message k)} {c : Channel k} (v : Inv k capacity all c) (m : Message k)
      (w : Wire k) (q : List (List ℕ)) (out tail : List ℕ) (ms : List (Message k))
      → IsValid k w
      → w.capacity ≡ capacity
      → contents k w ≡ flatten q
      → w.pushed ≡ c.wire.pushed
      → q ++ (v.to_push ++ all_chunks k capacity c.todo)
        ≡ chunks capacity tail ++ all_chunks k capacity ms
      → out ++ tail ≡ m.body
      → all ≡ c.delivered ++ (m ∷ ms)
      → All (IsSound k capacity) ms
      → Inv k capacity all (took k c m.header (w, read_more (length tail) out))
  unfolding took read_more
  took-Inv {all} {c} v m w q out tail ms valid cap held same plan body order sound =
      elim (Bool-cases (ltb 0 (length tail))) [
        | inl h ↦ rw h (record {
          valid = valid;
          capacity_same = cap;
          queue = q;
          to_push = v.to_push;
          to_take = chunks capacity tail;
          current = m ∷ [];
          undelivered = ms;
          held = held;
          writes = v.writes;
          reads = (
            tail,
            refl,
            ground arith,
            refl,
            ap (λ (b : List ℕ). message m.header b ∷ []) (sym body),
          );
          plan = plan;
          order = order;
          sound_todo = v.sound_todo;
          sound_undelivered = sound;
          counted = omega (arith, v.counted);
        })
        | inr h ↦ rw h (record {
          valid = valid;
          capacity_same = cap;
          queue = q;
          to_push = v.to_push;
          to_take = [];
          current = [];
          undelivered = ms;
          held = held;
          writes = v.writes;
          reads = (refl, refl);
          plan =
              plan
              ∙ ap (λ (cs : List (List ℕ)). cs ++ all_chunks k capacity ms)
                  (chunks-nil capacity tail (ground arith));
          order =
              order
              ∙ ap (λ (b : List ℕ). c.delivered ++ (message m.header b ∷ ms)) (whole (ground arith))
              ∙ sym (append_assoc c.delivered (message m.header out ∷ []) ms);
          sound_todo = v.sound_todo;
          sound_undelivered = sound;
          counted = omega (arith, v.counted);
        })
      ]
    where
      whole : length tail ≤ 0 → m.body ≡ out
      whole h = sym body ∙ ap (◌++◌ out) (nil_of_length tail h) ∙ append-nil out

  -- Bytes taken from the front, as long as the chunk that is due, are that chunk.
  take_front :
      {all : List (Message k)} {c : Channel k} (v : Inv k capacity all c) (w : Wire k)
      (p x : List ℕ) (xs : List (List ℕ))
      → Pops k c.wire p w
      → length p ≡ length x
      → 0 < length x
      → v.queue ++ (v.to_push ++ all_chunks k capacity c.todo) ≡ x ∷ xs
      → (q : List (List ℕ)) × (p ≡ x)
        × (contents k w ≡ flatten q)
        × (q ++ (v.to_push ++ all_chunks k capacity c.todo) ≡ xs)
  take_front {all} {c} v w p x xs pops len pos plan =
      let (q, front, left) =
        front_chunk v.queue (v.to_push ++ all_chunks k capacity c.todo) x xs
          (omega (arith, ap length v.held, ap length pops.removed, length-append p (contents k w)))
          plan in
      let (same, held) =
        append_injective p x {us = contents k w} {vs = flatten q} len
          (sym pops.removed ∙ v.held ∙ ap flatten front) in
      (q, same, held, left)

  rest-Inv :
      {all : List (Message k)} {c : Channel k} (v : Inv k capacity all c) (h : k.Header) (n : ℕ)
      (out : List ℕ) (w : Wire k) (s : Reading)
      → Reads k capacity (within h n out) v.to_take v.current
      → read_rest k c.wire n out ≡ some (w, s)
      → Inv k capacity all (took k c h (w, s))
  rest-Inv {all} {c} v h n out w s (tail, len, pos, taken, now) step =
      let (p, pl, pops, more') = read_rest-Pops k v.valid n out step in
      let due : 0 < length (take capacity tail) = omega (arith, length-take capacity tail) in
      let same_length : length p ≡ length (take capacity tail) =
        ground (arith, pl, v.capacity_same, length-take capacity tail) in
      let planned =
        v.plan
        ∙ ap (λ (cs : List (List ℕ)). cs ++ all_chunks k capacity v.undelivered)
            (taken ∙ chunks-cons capacity tail hc (omega arith)) in
      let (q, same, held, left) = take_front v w p _ _ pops same_length due planned in
      let joined : (out ++ p) ++ drop capacity tail ≡ out ++ tail =
        append_assoc out p (drop capacity tail)
        ∙ ap (λ (b : List ℕ). out ++ (b ++ drop capacity tail)) same
        ∙ ap (◌++◌ out) (take-append-drop capacity tail) in
      let remaining : n - min_size n c.wire.capacity ≡ length (drop capacity tail) =
        ground (arith, v.capacity_same, length-drop capacity tail) in
      rw (more', remaining)
        (took-Inv v (message h (out ++ tail)) w q (out ++ p) (drop capacity tail) v.undelivered
          pops.valid (pops.capacity_same ∙ v.capacity_same) held pops.pushed_same left joined
          (v.order ∙ ap (λ (ms : List (Message k)). c.delivered ++ (ms ++ v.undelivered)) now)
          v.sound_undelivered)

  within-Inv :
      {all : List (Message k)} {c : Channel k} (v : Inv k capacity all c) (h : k.Header) (n : ℕ)
      (out : List ℕ) (c' : Channel k)
      → Reads k capacity (within h n out) v.to_take v.current
      → receive_from k (within h n out) c ≡ some c'
      → Inv k capacity all c'
  unfolding receive_from
  within-Inv {all} {c} v h n out c' r step =
      let ((w, s), step', done) = map-eq-some (took k c h) _ step in
      rw (← done) (rest-Inv v h n out w s r step')

  -- With the header that `copy_header` reads, the wire holds the same bytes.
  with_header :
      {w : Wire k} {p : List ℕ} {w' : Wire k} (h : k.Header)
      → IsValid k w
      → Pops k (record w { header_received = h }) p w'
      → Pops k w p w'
  unfolding contents
  with_header h v p = record {
    valid = p.valid;
    capacity_same = p.capacity_same;
    removed = p.removed;
    pushed_same = p.pushed_same;
  }

  -- The header that is read is that of the message whose first chunk is in front.
  header_read :
      {c : Wire k} (v : IsValid k c) (m : Message k) (q : List (List ℕ))
      → IsSound k capacity m
      → k.size ≤ stored k c
      → contents k c ≡ flatten ((k.get_buffer m.header ++ take (capacity - k.size) m.body) ∷ q)
      → (part k c k.size ≡ k.get_buffer m.header)
        × (copy_header k c ≡ record c { header_received = m.header })
  header_read {c} v m q sound enough held =
      let pops = pop-Pops k v k.size (c.poped + k.size) refl enough in
      let (same, rest) =
        append_injective (part k c k.size) (k.get_buffer m.header)
          {us = contents k (record c { poped = c.poped + k.size })}
          {vs = take (capacity - k.size) m.body ++ flatten q}
          (omega
            (arith, k.length-get_buffer m.header, length-part k v k.size (omega (arith, v.roomy))))
          (sym pops.removed
            ∙ held
            ∙ append_assoc (k.get_buffer m.header) (take (capacity - k.size) m.body) (flatten q)) in
      (
        same,
        copy_header_lem k v
            ∙ ap (λ (h : k.Header). record c { header_received = h })
                (ap k.from_buffer same ∙ k.from_buffer-get_buffer m.header sound.in_range),
      )

  abbrev pub first_part : Message k → List ℕ
  first_part m = take (capacity - k.size) m.body

  abbrev pub last_part : Message k → List ℕ
  last_part m = drop (capacity - k.size) m.body

  pub length-head :
      (m : Message k)
      → length (k.get_buffer m.header ++ first_part m) ≡ k.size + length (first_part m)
  length-head m =
      omega
        (arith, length-append (k.get_buffer m.header) (first_part m), k.length-get_buffer m.header)

  -- the body that `read` takes first, after the header
  first_read :
      {all : List (Message k)} {c : Channel k} (v : Inv k capacity all c) (m : Message k)
      → IsSound k capacity m
      → part k c.wire k.size ≡ k.get_buffer m.header
      → length (k.get_buffer m.header ++ first_part m) ≤ stored k c.wire
      → let r = read_first k (record c.wire { header_received = m.header }) in
        (body : List ℕ) × (length body ≡ length (first_part m))
        × Pops k c.wire (k.get_buffer m.header ++ body) r.0
        × (r.1 ≡ read_more (length (last_part m)) body)
  first_read {all} {c} v m sound buffer enough =
      let valid : IsValid k (record c.wire { header_received = m.header }) =
        omega (arith, v.valid) in
      let n = min_size (k.get_length m.header) (c.wire.capacity - k.size) in
      let cut : n ≡ length (first_part m) =
        ground (arith, v.capacity_same, sound.whole, length-take (capacity - k.size) m.body) in
      let left : k.get_length m.header - n ≡ length (last_part m) =
        ground (arith, v.capacity_same, sound.whole, length-drop (capacity - k.size) m.body) in
      let (body, body_length, pops, more') =
        read_first-Pops k valid (omega (arith, cut, length-head m)) in
      (
        body,
        body_length ∙ cut,
        (let pops' = with_header m.header v.valid pops in rw buffer at pops'),
        more' ∙ ap (λ (j : ℕ). read_more j body) left,
      )

  -- Where the first chunk of `m` is due, the first step of `read` takes it.
  first-Inv :
      {all : List (Message k)} {c : Channel k} (v : Inv k capacity all c) (m : Message k)
      (ms : List (Message k))
      → k.size ≤ stored k c.wire
      → IsSound k capacity m × All (IsSound k capacity) ms
      → v.queue ++ (v.to_push ++ all_chunks k capacity c.todo)
        ≡ message_chunks k capacity m ++ all_chunks k capacity ms
      → all ≡ c.delivered ++ (m ∷ ms)
      → let w = copy_header k c.wire in
        Inv k capacity all (took k c w.header_received (read_first k w))
  first-Inv {all} {c} v m ms enough (sound, sounds) planned order =
      let rest = v.to_push ++ all_chunks k capacity c.todo in
      let (q0, front, left0) =
        front_chunk v.queue rest _ _
          (omega (arith, ap length v.held, stored-length k v.valid, k.size_pos)) planned in
      let held0 = v.held ∙ ap flatten front in
      let (buffer, read) = header_read v.valid m q0 sound enough held0 in
      let (body, body_length, pops, more') = first_read v m sound buffer (
        omega (
          arith,
          stored-length k v.valid,
          ap length held0,
          length-append (k.get_buffer m.header ++ first_part m) (flatten q0),
        )) in
      let (q, same, held, left) =
        take_front v _ _ _ _ pops
          (omega (
            arith,
            length-head m,
            body_length,
            length-append (k.get_buffer m.header) body,
            k.length-get_buffer m.header,
          ))
          (omega (arith, length-head m, k.size_pos)) planned in
      let (_, body_same) =
        append_injective (k.get_buffer m.header) (k.get_buffer m.header) {us = body}
          {vs = first_part m} refl same in
      rw (read, more')
        (took-Inv v m _ q body (last_part m) ms pops.valid (pops.capacity_same ∙ v.capacity_same)
          held pops.pushed_same left
          (ap (λ (b : List ℕ). b ++ last_part m) body_same
            ∙ take-append-drop (capacity - k.size) m.body)
          order sounds)

  pub no_chunk : (queue rest : List (List ℕ)) → 0 < length (flatten queue) → queue ++ rest ≢ []
  no_chunk [] rest h e = omega arith
  no_chunk (x ∷ q) rest h e = cc

  between-Inv :
      {all : List (Message k)} {c : Channel k} (v : Inv k capacity all c) (us : List (Message k))
      (c' : Channel k)
      → v.undelivered ≡ us
      → Reads k capacity between v.to_take v.current
      → receive_from k between c ≡ some c'
      → Inv k capacity all c'
  unfolding receive_from
  between-Inv {all} {c} v [] c' e (none_taken, no_current) step = absurd (
      no_chunk v.queue (v.to_push ++ all_chunks k capacity c.todo)
        (ground (arith, ap length v.held, stored-length k v.valid, k.size_pos))
        (v.plan
          ∙ ap₂ (λ (a : List (List ℕ)) (b : List (Message k)). a ++ all_chunks k capacity b)
              none_taken e))
  between-Inv {all} {c} v (m ∷ ms) c' e (none_taken, no_current) step =
      let (enough, done) = stored_enough c c' step in
      let sound : All (IsSound k capacity) (m ∷ ms) = rw e at v.sound_undelivered in
      rw (← done) (
        first-Inv v m ms enough sound
          (v.plan
            ∙ ap₂ (λ (a : List (List ℕ)) (b : List (Message k)). a ++ all_chunks k capacity b)
                none_taken e)
          (v.order ∙ ap₂ (λ (a b : List (Message k)). c.delivered ++ (a ++ b)) no_current e))
    where
      stored_enough :
          (c c' : Channel k)
          → receive_from k between c ≡ some c'
          → (k.size ≤ stored k c.wire)
            × (took k c (copy_header k c.wire).header_received (read_first k (copy_header k c.wire))
                ≡ c')
      stored_enough c c' step = ground arith

  receive_from-Inv :
      {all : List (Message k)} {c : Channel k} (v : Inv k capacity all c) (r : Reader k)
      (c' : Channel k)
      → Reads k capacity r v.to_take v.current
      → receive_from k r c ≡ some c'
      → Inv k capacity all c'
  receive_from-Inv v between c' reads step = between-Inv v v.undelivered c' refl reads step
  receive_from-Inv v (within h n out) c' reads step = within-Inv v h n out c' reads step

  -- Every step of the reader keeps the invariant.
  pub receive-Inv :
      {all : List (Message k)} {c c' : Channel k}
      → Inv k capacity all c
      → receive k c ≡ some c'
      → Inv k capacity all c'
  unfolding receive
  receive-Inv {all} {c} {c'} v step = receive_from-Inv v c.reading c' v.reads step
