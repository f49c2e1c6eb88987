-- ===== src/Wire/SimpleWire/Chunks.antt =====
-- What each step of `write` and `read` does to the bytes that the wire holds.
use tateyama.Base.{
  ℕ, ◌+◌, ◌-◌, ◌^◌, ◌≤◌, ◌<◌, ◌≡◌, refl, sym, ap, ◌∙◌, false, some, List, ◌++◌, arith, length, take,
  drop, append_assoc, append-nil, length-append, length-take, take-all, drop-all,
}
use native.Mathlib.Decide.{dec_lt}
use tateyama.Base.Words.{size_mod, add_size}
use tateyama.Wire.Ring.{index, write_in_buffer, read_from_buffer}
use tateyama.Wire.Ring.Stream.{length-stream}
use tateyama.Wire.Ring.Copy.{read_from_buffer-eq-stream}
use tateyama.Wire.Header.{HeaderKind}
use tateyama.Wire.SimpleWire.{
  Wire, Writing, Reading, stored, room, min_size, write_more, read_more, write_first, write_rest,
  read_first, read_rest, copy_header, max_payload_length,
}
use tateyama.Wire.SimpleWire.Valid.{IsValid, contents, contents-push, contents-pop, capacity_pos}

module _ (k : HeaderKind) where
  -- The wire `w'` is `w` with the bytes `bs` at the end of its contents.
  pub record Pushes (w : Wire k) (bs : List ℕ) (w' : Wire k) : Type 0 where
    pub valid : IsValid k w'
    pub capacity_same : w'.capacity ≡ w.capacity
    pub appended : contents k w' ≡ contents k w ++ bs
    pub advanced : w'.pushed ≡ w.pushed + length bs
    pub header_same : w'.header_received ≡ w.header_received

  -- The wire `w'` is `w` with the bytes `bs` gone from the front of its contents.
  pub record Pops (w : Wire k) (bs : List ℕ) (w' : Wire k) : Type 0 where
    pub valid : IsValid k w'
    pub capacity_same : w'.capacity ≡ w.capacity
    pub removed : contents k w ≡ bs ++ contents k w'
    pub pushed_same : w'.pushed ≡ w.pushed

  pub push-Pushes :
      {w : Wire k} (v : IsValid k w) (bs : List ℕ) (n : ℕ)
      → n ≡ w.pushed + length bs
      → n < size_mod
      → length bs ≤ room k w
      → Pushes w bs (record w {
        mem = write_in_buffer w.capacity w.mem (index w.capacity w.pushed) bs;
        pushed = n;
      })
  push-Pushes {w} v bs n e s h = record {
    valid = omega arith;
    capacity_same = refl;
    appended = contents-push k v bs n e h;
    advanced = e;
    header_same = refl;
  }

  pub Pushes-trans :
      {u v w : Wire k} {bs cs : List ℕ} → Pushes u bs v → Pushes v cs w → Pushes u (bs ++ cs) w
  Pushes-trans {u} {v} {w} {bs} {cs} p q = record {
    valid = q.valid;
    capacity_same = q.capacity_same ∙ p.capacity_same;
    appended =
        q.appended ∙ ap (λ (b : List ℕ). b ++ cs) p.appended ∙ append_assoc (contents k u) bs cs;
    advanced = omega (arith, p.advanced, q.advanced, length-append bs cs);
    header_same = q.header_same ∙ p.header_same;
  }

  pub pop-Pops :
      {w : Wire k} (v : IsValid k w) (n p : ℕ)
      → p ≡ w.poped + n
      → n ≤ stored k w
      → Pops w
          (read_from_buffer w.capacity w.mem (index w.capacity w.poped) n)
          (record w { poped = p })
  pop-Pops {w} v n p e h = record {
    valid = omega arith;
    capacity_same = refl;
    removed = contents-pop k v n p e h;
    pushed_same = refl;
  }

  -- A round of the writer's loop appends the next chunk, and keeps the rest for later.
  pub write_rest-Pushes :
      {w w' : Wire k} {s : Writing} (v : IsValid k w) (from : List ℕ)
      → w.pushed + length from < size_mod
      → write_rest k w from false ≡ some (w', s)
      → Pushes w (take (min_size (length from) w.capacity) from) w'
        × (s ≡ write_more (drop (min_size (length from) w.capacity) from))
  unfolding write_rest
  write_rest-Pushes {w} {w'} {s} v from c e = ground (
    arith,
    push-Pushes v (take (min_size (length from) w.capacity) from)
        (add_size w.pushed (min_size (length from) w.capacity)),
    length-take (min_size (length from) w.capacity) from,
  )

  -- the header and the bytes of the body that go with it, copied one after the other
  first-Pushes :
      {w : Wire k} (v : IsValid k w) (h : k.Header) (bs : List ℕ) (n p : ℕ)
      → n ≡ w.pushed + k.size
      → p ≡ w.pushed + (k.size + length bs)
      → p < size_mod
      → k.size + length bs ≤ room k w
      → Pushes w (k.get_buffer h ++ bs) (record w {
        mem =
            write_in_buffer w.capacity
              (write_in_buffer w.capacity w.mem (index w.capacity w.pushed) (k.get_buffer h))
              (index w.capacity n)
              bs;
        pushed = p;
      })
  first-Pushes {w} v h bs n p e f s r =
      let head : Pushes w (k.get_buffer h) (record w {
        mem = write_in_buffer w.capacity w.mem (index w.capacity w.pushed) (k.get_buffer h);
        pushed = n;
      }) =
        push-Pushes v (k.get_buffer h) n (omega (arith, k.length-get_buffer h)) (omega arith)
          (omega (arith, k.length-get_buffer h)) in
      Pushes-trans head (push-Pushes head.valid bs p (omega arith) s (omega arith))

  -- the length of the first chunk, header included
  abbrev first_length : Wire k → k.Header → ℕ
  first_length w h = min_size (add_size (k.get_length h) k.size) w.capacity

  write_first_cut :
      (w : Wire k) (h : k.Header) (from : List ℕ)
      → length from ≡ k.get_length h
      → length from < 2 ^ 32
      → k.size ≤ w.capacity
      → (take (first_length w h - k.size) from ≡ take (w.capacity - k.size) from)
        × (drop (first_length w h - k.size) from ≡ drop (w.capacity - k.size) from)
  write_first_cut w h from g l r =
      let a = first_length w h - k.size in
      let b = w.capacity - k.size in
      elim (dec_lt (k.size + length from) w.capacity) [
        | yes p ↦ (
          take-all a from (ground (arith, k.size_small)) ∙ sym (take-all b from (omega arith)),
          drop-all a from (ground (arith, k.size_small)) ∙ sym (drop-all b from (omega arith)),
        )
        | no p ↦
            (let same : a ≡ b = ground (arith, k.size_small) in
              (ap (λ (n : ℕ). take n from) same, ap (λ (n : ℕ). drop n from) same))
      ]

  -- The first step of `write` appends the header and as much of the body as the ring can hold.
  pub write_first-Pushes :
      {w w' : Wire k} {s : Writing} (v : IsValid k w) (h : k.Header) (from : List ℕ)
      → length from < 2 ^ 32
      → length from ≡ k.get_length h
      → w.pushed + (k.size + length from) < size_mod
      → write_first k w h from false ≡ some (w', s)
      → Pushes w (k.get_buffer h ++ take (w.capacity - k.size) from) w'
        × (s ≡ write_more (drop (w.capacity - k.size) from))
  unfolding write_first
  write_first-Pushes {w} {w'} {s} v h from l g c e =
      let (t, d) = write_first_cut w h from g l v.roomy in
      rw (← t, ← d)
        (ground (
          arith,
          k.size_small,
          k.length-get_buffer h,
          append-nil (k.get_buffer h),
          length-take (first_length w h - k.size) from,
          push-Pushes v (k.get_buffer h) (add_size w.pushed (first_length w h)),
          first-Pushes v h (take (first_length w h - k.size) from) (add_size w.pushed k.size)
              (add_size w.pushed (first_length w h)),
        ))

  -- the `n` bytes at the front of the contents
  abbrev pub part : Wire k → ℕ → List ℕ
  part w n = read_from_buffer w.capacity w.mem (index w.capacity w.poped) n

  pub length-part : {w : Wire k} (v : IsValid k w) (n : ℕ) → n ≤ w.capacity → length (part w n) ≡ n
  length-part {w} v n h =
      ap length (read_from_buffer-eq-stream w.capacity w.mem w.poped n (capacity_pos k v) h)
      ∙ length-stream w.capacity w.mem w.poped n

  at_front :
      {w : Wire k} (v : IsValid k w) (n : ℕ)
      → read_from_buffer w.capacity w.mem (index w.capacity (add_size w.poped 0)) n ≡ part w n
  at_front {w} v n =
      let same : add_size w.poped 0 ≡ w.poped = omega arith in
      ap (λ (p : ℕ). read_from_buffer w.capacity w.mem (index w.capacity p) n) same

  -- A round of the reader's loop takes the next chunk from the front of the contents.
  pub read_rest-Pops :
      {w w' : Wire k} {s : Reading} (v : IsValid k w) (n : ℕ) (out : List ℕ)
      → read_rest k w n out ≡ some (w', s)
      → (part : List ℕ) × (length part ≡ min_size n w.capacity)
        × Pops w part w'
        × (s ≡ read_more (n - min_size n w.capacity) (out ++ part))
  unfolding read_rest
  read_rest-Pops {w} {w'} {s} v n out e = (
    part w (min_size n w.capacity),
    length-part v (min_size n w.capacity) (ground arith),
    ground (
      arith,
      at_front v (min_size n w.capacity),
      pop-Pops v (min_size n w.capacity) (add_size w.poped (min_size n w.capacity)),
    ),
    ground (arith, at_front v (min_size n w.capacity)),
  )

  pub Pops-trans :
      {u v w : Wire k} {bs cs : List ℕ} → Pops u bs v → Pops v cs w → Pops u (bs ++ cs) w
  Pops-trans {u} {v} {w} {bs} {cs} p q = record {
    valid = q.valid;
    capacity_same = q.capacity_same ∙ p.capacity_same;
    removed = p.removed ∙ ap (◌++◌ bs) q.removed ∙ sym (append_assoc bs cs (contents k w));
    pushed_same = q.pushed_same ∙ p.pushed_same;
  }

  -- `copy_header` reads the header from the front of the contents, also round the ring's end.
  pub copy_header_lem :
      {w : Wire k} (v : IsValid k w)
      → copy_header k w ≡ record w { header_received = k.from_buffer (part w k.size) }
  unfolding copy_header read_from_buffer
  copy_header_lem {w} v =
      let same : add_size w.poped 0 ≡ w.poped = omega arith in rw same (ground arith)

  -- `read`, up to its first loop test, takes the header and the first chunk of the body.
  pub read_first-Pops :
      {w : Wire k} (v : IsValid k w)
      → let n = min_size (k.get_length w.header_received) (w.capacity - k.size) in
        k.size + n ≤ stored k w
        → (body : List ℕ) × (length body ≡ n)
          × Pops w (part w k.size ++ body) (read_first k w).0
          × ((read_first k w).1 ≡ read_more (k.get_length w.header_received - n) body)
  unfolding read_first
  read_first-Pops {w} v h =
      let n = min_size (k.get_length w.header_received) (w.capacity - k.size) in
      let head = pop-Pops v k.size (add_size w.poped k.size) (omega arith) (omega arith) in
      let same : max_payload_length k w ≡ w.capacity - k.size = omega arith in
      (
        part (record w { poped = add_size w.poped k.size }) n,
        length-part head.valid n (ground arith),
        Pops-trans head (rw same (pop-Pops head.valid n _ (ground arith) (ground arith))),
        rw same,
      )
