-- ===== src/Wire/Transfer/Writer.antt =====
-- The writer's steps keep the invariant of a transfer.
use tateyama.Base.{
  ℕ, ◌-◌, ◌<◌, ◌≡◌, refl, sym, ap, ◌∙◌, inl, inr, false, some, List, [], ◌∷◌, ◌++◌, arith, length,
  take, drop, append_assoc, append-nil, length-append, length-take, length-drop, map-eq-some, All,
  Bool-cases, ltb,
}
use tateyama.Wire.Header.{HeaderKind}
use tateyama.Wire.SimpleWire.{Wire, Writing, write_more, write_first, write_rest}
use tateyama.Wire.SimpleWire.Chunks.{Pushes, write_rest-Pushes, write_first-Pushes}
use tateyama.Wire.Transfer.{Message, Channel, send, wrote, send_from}
use tateyama.Wire.Transfer.Chunking.{
  flatten, flatten-append, chunks, chunks-nil, chunks-cons, flatten-chunks, cut_at_min,
}
use tateyama.Wire.Transfer.Invariant.{IsSound, all_chunks, Writes, Inv}

module _ (k : HeaderKind) (capacity : ℕ) (hc : 0 < capacity) where
  -- what the loop test of `write` leaves for later
  write_more-Writes : (rest : List ℕ) → Writes k capacity (write_more rest) (chunks capacity rest)
  unfolding write_more
  write_more-Writes rest = elim (Bool-cases (ltb 0 (length rest))) [
    | inl h ↦ rw h (ground arith, refl)
    | inr h ↦ rw h (chunks-nil capacity rest (ground arith))
  ]

  -- The chunk `bs` moves from what is to be pushed to the end of the queue.
  push-Inv :
      {all : List (Message k)} {c : Channel k} (v : Inv k capacity all c) (w : Wire k) (s : Writing)
      (todo : List (Message k)) (bs : List ℕ) (left : List (List ℕ))
      → v.to_push ++ all_chunks k capacity c.todo ≡ bs ∷ (left ++ all_chunks k capacity todo)
      → Pushes k c.wire bs w
      → Writes k capacity s left
      → All (IsSound k capacity) todo
      → Inv k capacity all (record c { wire = w; writing = s; todo = todo })
  push-Inv {all} {c} v w s todo bs left e p r sound = record {
    valid = p.valid;
    capacity_same = p.capacity_same ∙ v.capacity_same;
    queue = v.queue ++ (bs ∷ []);
    to_push = left;
    to_take = v.to_take;
    current = v.current;
    undelivered = v.undelivered;
    held =
        p.appended
        ∙ ap (λ (b : List ℕ). b ++ bs) v.held
        ∙ ap (◌++◌ (flatten v.queue)) (sym (append-nil bs))
        ∙ sym (flatten-append v.queue (bs ∷ []));
    writes = r;
    reads = v.reads;
    plan =
        append_assoc v.queue (bs ∷ []) (left ++ all_chunks k capacity todo)
        ∙ ap (◌++◌ v.queue) (sym e)
        ∙ v.plan;
    order = v.order;
    sound_todo = sound;
    sound_undelivered = v.sound_undelivered;
    counted = omega (
      arith,
      v.counted,
      p.advanced,
      ap (λ (cs : List (List ℕ)). length (flatten cs)) e,
      length-append bs (flatten (left ++ all_chunks k capacity todo)),
    );
  }

  -- a round of the loop of `write`
  more-Inv :
      {all : List (Message k)} {c : Channel k} (v : Inv k capacity all c) (from : List ℕ)
      (w : Wire k) (s : Writing)
      → Writes k capacity (Writing.more from) v.to_push
      → write_rest k c.wire from false ≡ some (w, s)
      → Inv k capacity all (record c { wire = w; writing = s })
  more-Inv {all} {c} v from w s (pos, cs) step =
      let rest = all_chunks k capacity c.todo in
      let (t, d) = cut_at_min c.wire.capacity from in
      let (p, q) =
        write_rest-Pushes k v.valid from
          (omega (
            arith,
            v.counted,
            ap (λ (xss : List (List ℕ)). length (flatten (xss ++ rest))) cs,
            ap length (flatten-append (chunks capacity from) rest),
            length-append (flatten (chunks capacity from)) (flatten rest),
            ap length (flatten-chunks capacity from hc),
          ))
          step in
      let cut =
        cs
        ∙ chunks-cons capacity from hc pos
        ∙ ap (λ (b : List ℕ). b ∷ chunks capacity (drop capacity from))
            (sym (t ∙ ap (λ (n : ℕ). take n from) v.capacity_same)) in
      let left = q ∙ ap write_more (d ∙ ap (λ (n : ℕ). drop n from) v.capacity_same) in
      push-Inv v w s c.todo _ _ (ap (λ (xss : List (List ℕ)). xss ++ rest) cut) p
        (rw left (write_more-Writes (drop capacity from))) v.sound_todo

  -- the first step of `write`, with the next message
  first-Inv :
      {all : List (Message k)} {c : Channel k} (v : Inv k capacity all c) (m : Message k)
      (ms : List (Message k)) (w : Wire k) (s : Writing)
      → v.to_push ≡ []
      → c.todo ≡ m ∷ ms
      → write_first k c.wire m.header m.body false ≡ some (w, s)
      → Inv k capacity all (record c { wire = w; writing = s; todo = ms })
  first-Inv {all} {c} v m ms w s none_left e step =
      let sound : All (IsSound k capacity) (m ∷ ms) = rw e at v.sound_todo in
      let rest = all_chunks k capacity ms in
      let tail = drop (capacity - k.size) m.body in
      let head = k.get_buffer m.header ++ take (capacity - k.size) m.body in
      let queued : v.to_push ++ all_chunks k capacity c.todo
          ≡ head ∷ (chunks capacity tail ++ rest) =
        rw (none_left, e) in
      let (p, q) =
        write_first-Pushes k v.valid m.header m.body
          (omega (arith, sound.0.whole, k.get_length_small m.header sound.0.in_range)) sound.0.whole
          (omega (
            arith,
            v.counted,
            ap (λ (xss : List (List ℕ)). length (flatten xss)) queued,
            length-append head (flatten (chunks capacity tail ++ rest)),
            length-append (k.get_buffer m.header) (take (capacity - k.size) m.body),
            k.length-get_buffer m.header,
            ap length (flatten-append (chunks capacity tail) rest),
            length-append (flatten (chunks capacity tail)) (flatten rest),
            ap length (flatten-chunks capacity tail hc),
            length-take (capacity - k.size) m.body,
            length-drop (capacity - k.size) m.body,
          ))
          step in
      let same : c.wire.capacity - k.size ≡ capacity - k.size = omega (arith, v.capacity_same) in
      push-Inv v w s ms head _ queued (rw same at p) (rw (q, same) (write_more-Writes tail)) sound.1

  send_from-Inv :
      {all : List (Message k)} {c : Channel k} (v : Inv k capacity all c) (s : Writing)
      (todo : List (Message k)) (c' : Channel k)
      → Writes k capacity s v.to_push
      → c.todo ≡ todo
      → send_from k s todo c ≡ some c'
      → Inv k capacity all c'
  unfolding send_from wrote
  send_from-Inv {c} v (Writing.more from) todo c' r e step =
      let ((w, s), step', done) = map-eq-some (wrote k c todo) _ step in
      rw (← done, ← e) (more-Inv v from w s r step')
  send_from-Inv v Writing.finished [] c' r e step = cc
  send_from-Inv {c} v Writing.finished (m ∷ ms) c' r e step =
      let ((w, s), step', done) = map-eq-some (wrote k c ms) _ step in
      rw (← done) (first-Inv v m ms w s r e step')
  send_from-Inv v Writing.abandoned todo c' r e step = absurd r

  -- Every step of the writer keeps the invariant.
  pub send-Inv :
      {all : List (Message k)} {c c' : Channel k}
      → Inv k capacity all c
      → send k c ≡ some c'
      → Inv k capacity all c'
  unfolding send
  send-Inv {all} {c} {c'} v step = send_from-Inv v c.writing c.todo c' v.writes refl step
