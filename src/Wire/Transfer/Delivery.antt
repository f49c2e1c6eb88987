-- ===== src/Wire/Transfer/Delivery.antt =====
-- What a transfer delivers, and that it does not get stuck.
use tateyama.Base.{
  ℕ, ◌+◌, ◌≤◌, ◌<◌, ◌≡◌, refl, sym, ap, ap₂, ◌∙◌, ◌≢◌, length-take, none, List, [], ◌∷◌, ◌++◌,
  arith, length, append-nil, length-append, nil_of_length, All,
}
use native.Mathlib.Decide.{dec_lt}
use tateyama.Base.Words.{size_mod}
use tateyama.Wire.Header.{HeaderKind}
use tateyama.Wire.SimpleWire.{Wire, Writing, stored, write_first, write_rest, read_rest}
use tateyama.Wire.SimpleWire.Valid.{IsValid, contents, stored-length, capacity_pos}
use tateyama.Wire.Transfer.{
  Message, Reader, between, within, Channel, Step, sends, receives, Steps, here, next, send,
  receive, opened, receive_from, send_from,
}
use tateyama.Wire.Transfer.Chunking.{flatten, chunks-cons}
use tateyama.Wire.Transfer.Invariant.{IsSound, all_chunks, Writes, Reads, Inv}
use tateyama.Wire.Transfer.Writer.{send-Inv}
use tateyama.Wire.Transfer.Taking.{receive-Inv, front_chunk, no_chunk, length-head}

module _ (k : HeaderKind) (capacity : ℕ) (hc : 0 < capacity) where
  Step-Inv :
      {all : List (Message k)} {c c' : Channel k}
      → Step k c c'
      → Inv k capacity all c
      → Inv k capacity all c'
  Step-Inv (sends e) v = send-Inv k capacity hc v e
  Step-Inv (receives e) v = receive-Inv k capacity hc v e

  pub Steps-Inv :
      {all : List (Message k)} {c c' : Channel k}
      → Steps k c c'
      → Inv k capacity all c
      → Inv k capacity all c'
  Steps-Inv here v = v
  Steps-Inv (next r s) v = Step-Inv s (Steps-Inv r v)

module _ (k : HeaderKind) {w : Wire k} (v : IsValid k w) (ms : List (Message k)) where
  opened-Inv :
      w.pushed ≡ w.poped
      → All (IsSound k w.capacity) ms
      → w.pushed + length (flatten (all_chunks k w.capacity ms)) < size_mod
      → Inv k w.capacity ms (opened k w ms)
  unfolding opened contents
  opened-Inv e s c = record {
    valid = v;
    capacity_same = refl;
    queue = [];
    to_push = [];
    to_take = [];
    current = [];
    undelivered = ms;
    held = nil_of_length (contents k w) (omega (arith, stored-length k v));
    writes = refl;
    reads = (refl, refl);
    plan = refl;
    order = refl;
    sound_todo = s;
    sound_undelivered = s;
    counted = c;
  }

module _ (k : HeaderKind) (capacity : ℕ) (hc : 0 < capacity) where
  -- what is stored holds the chunk that is due
  stored_front :
      {all : List (Message k)} {c : Channel k} (v : Inv k capacity all c) (x : List ℕ)
      (xs : List (List ℕ))
      → 0 < stored k c.wire
      → v.queue ++ (v.to_push ++ all_chunks k capacity c.todo) ≡ x ∷ xs
      → length x ≤ stored k c.wire
  stored_front {all} {c} v x xs h plan =
      let (q, front, left) =
        front_chunk v.queue (v.to_push ++ all_chunks k capacity c.todo) x xs
          (omega (arith, ap length v.held, stored-length k v.valid)) plan in
      omega (
        arith,
        ap length (v.held ∙ ap flatten front),
        length-append x (flatten q),
        stored-length k v.valid,
      )

  between_ready :
      {all : List (Message k)} {c : Channel k} (v : Inv k capacity all c) (us : List (Message k))
      → v.undelivered ≡ us
      → Reads k capacity between v.to_take v.current
      → 0 < stored k c.wire
      → receive_from k between c ≢ none
  unfolding receive_from
  between_ready {all} {c} v [] e (none_taken, no_current) h = absurd (
      no_chunk k capacity hc v.queue (v.to_push ++ all_chunks k capacity c.todo)
        (omega (arith, ap length v.held, stored-length k v.valid))
        (v.plan
          ∙ ap₂ (λ (a : List (List ℕ)) (b : List (Message k)). a ++ all_chunks k capacity b)
              none_taken e))
  between_ready {all} {c} v (m ∷ ms) e (none_taken, no_current) h = ground (
    arith,
    length-head k capacity hc m,
    stored_front v _ _ h (
        v.plan
        ∙ ap₂ (λ (a : List (List ℕ)) (b : List (Message k)). a ++ all_chunks k capacity b)
            none_taken e),
  )

  within_ready :
      {all : List (Message k)} {c : Channel k} (v : Inv k capacity all c) (h : k.Header) (n : ℕ)
      (out : List ℕ)
      → Reads k capacity (within h n out) v.to_take v.current
      → 0 < stored k c.wire
      → receive_from k (within h n out) c ≢ none
  unfolding receive_from read_rest
  within_ready {all} {c} v h n out (tail, len, pos, taken, now) some_stored = ground (
    arith,
    v.capacity_same,
    length-take capacity tail,
    stored_front v _ _ some_stored (
        v.plan
        ∙ ap (λ (cs : List (List ℕ)). cs ++ all_chunks k capacity v.undelivered)
            (taken ∙ chunks-cons capacity tail hc (omega arith))),
  )

  receive_from_ready :
      {all : List (Message k)} {c : Channel k} (v : Inv k capacity all c) (r : Reader k)
      → Reads k capacity r v.to_take v.current
      → 0 < stored k c.wire
      → receive_from k r c ≢ none
  receive_from_ready v between reads h = between_ready v v.undelivered refl reads h
  receive_from_ready v (within hd n out) reads h = within_ready v hd n out reads h

  -- Where the ring is empty, the writer can go on, unless it has written everything.
  send_from_ready :
      {all : List (Message k)} {c : Channel k} (v : Inv k capacity all c) (s : Writing)
      (todo : List (Message k))
      → Writes k capacity s v.to_push
      → c.todo ≡ todo
      → stored k c.wire ≡ 0
      → send_from k s todo c ≡ none
      → v.to_push ++ all_chunks k capacity c.todo ≡ []
  unfolding send_from write_rest write_first
  send_from_ready v (Writing.more from) todo r e h step = ground (arith, v.capacity_same, v.valid)
  send_from_ready v Writing.finished [] r e h step = rw (r, e)
  send_from_ready {all} {c} v Writing.finished (m ∷ ms) r e h step =
      ground (arith, v.capacity_same, v.valid)
  send_from_ready v Writing.abandoned todo r e h step = absurd r

  empty_queue :
      (queue rest : List (List ℕ)) (x : List ℕ) (xs : List (List ℕ))
      → length (flatten queue) ≡ 0
      → rest ≡ []
      → 0 < length x
      → queue ++ rest ≢ x ∷ xs
  empty_queue [] rest x xs h e pos p = cc
  empty_queue (y ∷ q) rest x xs h e pos p =
      let same : y ≡ x = cc in omega (arith, ap length same, length-append y (flatten q))

  all_delivered :
      {all : List (Message k)} {c : Channel k} (v : Inv k capacity all c) (r : Reader k)
      (us : List (Message k))
      → Reads k capacity r v.to_take v.current
      → v.undelivered ≡ us
      → stored k c.wire ≡ 0
      → v.to_push ++ all_chunks k capacity c.todo ≡ []
      → all ≡ c.delivered
  all_delivered {all} {c} v between [] (none_taken, no_current) e h nothing =
      v.order
      ∙ ap₂ (λ (a b : List (Message k)). c.delivered ++ (a ++ b)) no_current e
      ∙ append-nil c.delivered
  all_delivered {all} {c} v between (m ∷ ms) (none_taken, no_current) e h nothing = absurd (
      empty_queue v.queue _ _ _ (omega (arith, ap length v.held, stored-length k v.valid)) nothing
        (omega (arith, length-head k capacity hc m, k.size_pos))
        (v.plan
          ∙ ap₂ (λ (a : List (List ℕ)) (b : List (Message k)). a ++ all_chunks k capacity b)
              none_taken e))
  all_delivered {all} {c} v (within hd n out) us (tail, len, pos, taken, now) e h nothing = absurd (
      empty_queue v.queue _ _ _ (omega (arith, ap length v.held, stored-length k v.valid)) nothing
        (omega (arith, length-take capacity tail))
        (v.plan
          ∙ ap (λ (cs : List (List ℕ)). cs ++ all_chunks k capacity v.undelivered)
              (taken ∙ chunks-cons capacity tail hc (omega arith))))

  -- A state in which neither side can go on has delivered everything.
  pub stuck_delivered :
      {all : List (Message k)} {c : Channel k} (v : Inv k capacity all c)
      → send k c ≡ none
      → receive k c ≡ none
      → (c.delivered ≡ all) × (stored k c.wire ≡ 0)
  unfolding send receive
  stuck_delivered {all} {c} v s r =
      let ready = receive_from_ready v c.reading v.reads in
      let empty : stored k c.wire ≡ 0 = elim (dec_lt 0 (stored k c.wire)) [
        | yes h ↦ absurd (ready h r)
        | no h ↦ omega arith
      ] in
      (
        sym (
            all_delivered v c.reading v.undelivered v.reads refl empty
              (send_from_ready v c.writing c.todo v.writes refl empty s)),
        empty,
      )

-- A transfer over a wire that is empty at first.
module _ (k : HeaderKind) {w : Wire k} (v : IsValid k w) (ms : List (Message k)) where
  -- On a valid empty wire, for messages whose bodies have the announced lengths and which do not wrap
  -- the counters: at every moment, however the writer's and the reader's steps interleave, the
  -- messages that the reader has delivered are the first ones written, whole, unchanged and in order.
  pub delivers_in_order :
      {c : Channel k}
      → w.pushed ≡ w.poped
      → All (IsSound k w.capacity) ms
      → w.pushed + length (flatten (all_chunks k w.capacity ms)) < size_mod
      → Steps k (opened k w ms) c
      → (rest : List (Message k)) × (ms ≡ c.delivered ++ rest)
  delivers_in_order {c} e s n steps =
      let inv = Steps-Inv k w.capacity (capacity_pos k v) steps (opened-Inv k v ms e s n) in
      (inv.current ++ inv.undelivered, inv.order)

  -- On a valid empty wire, for messages whose bodies have the announced lengths and which do not wrap
  -- the counters, the writer and the reader never wait for one another: where neither has a step left,
  -- every message is delivered and the wire is empty.
  pub delivers_everything :
      {c : Channel k}
      → w.pushed ≡ w.poped
      → All (IsSound k w.capacity) ms
      → w.pushed + length (flatten (all_chunks k w.capacity ms)) < size_mod
      → Steps k (opened k w ms) c
      → send k c ≡ none
      → receive k c ≡ none
      → (c.delivered ≡ ms) × (stored k c.wire ≡ 0)
  delivers_everything {c} e s n steps =
      stuck_delivered k w.capacity (capacity_pos k v)
        (Steps-Inv k w.capacity (capacity_pos k v) steps (opened-Inv k v ms e s n))
