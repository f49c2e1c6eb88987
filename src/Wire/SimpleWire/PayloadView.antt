-- ===== src/Wire/SimpleWire/PayloadView.antt =====
-- `payload` and `dispose`: the view or the copy of a message, and its release.
use native.Mathlib.Nat.{add-mod_right}
use native.Mathlib.Decide.{ℕ_discrete}
use tateyama.Base.{
  ℕ, zero, suc, ◌+◌, ◌-◌, ◌%◌, ◌^◌, ◌≤◌, ◌<◌, ◌≡◌, refl, ap, ◌∙◌, inl, inr, ◌⊎◌, Bool, true, false,
  Option, none, List, ◌++◌, arith, length, Bool-cases, ltb, lt→ltb,
}
use tateyama.Base.Mod.{add-mod_cases}
use tateyama.Base.Words.{size_mod, add_size}
use tateyama.Wire.Ring.{Memory, index, load, read_from_buffer}
use tateyama.Wire.Header.{HeaderKind}
use tateyama.Wire.SimpleWire.{
  Wire, view, copy, finished, stored, read_more, read_first, payload, dispose, read_address,
}
use tateyama.Wire.SimpleWire.Valid.{IsValid, contents, capacity_pos}
use tateyama.Wire.SimpleWire.Chunks.{Pops, part, length-part, pop-Pops, Pops-trans, read_first-Pops}

length-load : (m : Memory) (a n : ℕ) → length (load m a n) ≡ n
length-load m a zero = refl
length-load m a (suc n) = ap suc (length-load m (a + 1) n)

module _ (k : HeaderKind) where
  -- the test of `payload`
  abbrev pub contiguous : Wire k → Bool
  contiguous w =
      ltb (read_address k w k.size)
        (index w.capacity (add_size (add_size w.poped k.size) (k.get_length w.header_received)))

  -- bytes that the test calls contiguous lie before the ring's end, if they fit the ring
  contiguous_fits :
      {w : Wire k} (v : IsValid k w)
      → k.size + k.get_length w.header_received ≤ stored k w
      → contiguous w ≡ true
      → read_address k w k.size + k.get_length w.header_received ≤ w.capacity
  contiguous_fits {w} v h t =
      let n = k.get_length w.header_received in
      let same : add_size (add_size w.poped k.size) n ≡ add_size w.poped k.size + n = omega arith in
      let t' = rw same at t in
      ground (arith, add-mod_cases (add_size w.poped k.size) n w.capacity (capacity_pos k v))

  payload_view :
      {w : Wire k} (v : IsValid k w)
      → k.size + k.get_length w.header_received ≤ stored k w
      → k.get_length w.header_received < 2 ^ 32
      → contiguous w ≡ true
      → let n = k.get_length w.header_received in
        let w1 = record w { poped = add_size w.poped k.size } in
        (payload k w).1 ≡ view (part k w1 n)
  unfolding payload read_from_buffer
  payload_view {w} v h l t = let fits = contiguous_fits v h t in ground arith

  -- what the reader keeps to itself has no part in the contents
  Pops-local :
      {w w' : Wire k} {bs : List ℕ} (a : ℕ) (c : Option (List ℕ))
      → Pops k w bs w'
      → Pops k w bs (record w' { need_dispose = a; copy_of_payload = c })
  unfolding contents
  Pops-local a c p = record {
    valid = omega (arith, p.valid);
    capacity_same = p.capacity_same;
    removed = p.removed;
    pushed_same = p.pushed_same;
  }

  dispose_view :
      (w : Wire k)
      → contiguous w ≡ true
      → dispose k (payload k w).0 ≡ record w {
        poped = add_size w.poped (k.size + k.get_length w.header_received);
        need_dispose = 0;
        copy_of_payload = none;
      }
  unfolding payload dispose
  dispose_view w t =
      let some_length =
        lt→ltb 0 (k.size + k.get_length w.header_received) (omega (arith, k.size_pos)) in
      rw (t, some_length)

  dispose_copy :
      (w : Wire k)
      → contiguous w ≡ false
      → w.need_dispose ≡ 0
      → dispose k (payload k w).0
        ≡ record (read_first k w).0 { need_dispose = 0; copy_of_payload = none }
  unfolding payload dispose read_first
  dispose_copy w f d = rw (f, d)

  payload_copy : (w : Wire k) → contiguous w ≡ false → (payload k w).1 ≡ copy (read_first k w).1
  unfolding payload
  payload_copy w f = rw f

  payload_view-Pops :
      {w : Wire k} (v : IsValid k w)
      → k.size + k.get_length w.header_received ≤ stored k w
      → contiguous w ≡ true
      → let n = k.get_length w.header_received in
        let w1 = record w { poped = add_size w.poped k.size } in
        (length (part k w1 n) ≡ n)
        × Pops k w (part k w k.size ++ part k w1 n) (dispose k (payload k w).0)
  payload_view-Pops {w} v h t =
      let n = k.get_length w.header_received in
      let head = pop-Pops k v k.size (add_size w.poped k.size) (omega arith) (omega arith) in
      let rest =
        pop-Pops k head.valid n (add_size w.poped (k.size + n)) (omega arith) (omega arith) in
      (
        length-part k head.valid n (omega arith),
        rw (dispose_view w t) (Pops-local 0 none (Pops-trans k head rest)),
      )

  -- If the whole message that `header_received` announces is stored, then `payload` gives its body,
  -- as a view or as a finished copy, and `dispose` after it removes exactly that message from the
  -- wire, its header included.
  pub payload-dispose :
      {w : Wire k} (v : IsValid k w)
      → k.size + k.get_length w.header_received ≤ stored k w
      → k.get_length w.header_received < 2 ^ 32
      → w.need_dispose ≡ 0
      → (body : List ℕ) × (length body ≡ k.get_length w.header_received)
        × Pops k w (part k w k.size ++ body) (dispose k (payload k w).0)
        × (((payload k w).1 ≡ view body) ⊎ ((payload k w).1 ≡ copy (finished body)))
  unfolding read_more
  payload-dispose {w} v h l d = elim (Bool-cases (contiguous w)) [
    | inl t ↦ (let (n, p) = payload_view-Pops v h t in (_, n, p, inl (payload_view v h l t)))
    | inr f ↦
        (let fits : w.capacity - k.size < k.get_length w.header_received → ⊥ = λ q. omega arith in
          let (body, n, p, e) = read_first-Pops k v (ground arith) in
          (
            body,
            ground arith,
            rw (dispose_copy w f d) (Pops-local 0 none p),
            inr (payload_copy w f ∙ ap copy (e ∙ ground arith)),
          ))
  ]

  payload_view_any :
      (w : Wire k)
      → contiguous w ≡ true
      → (payload k w).1
        ≡ view (load w.mem (read_address k w k.size) (k.get_length w.header_received))
  unfolding payload
  payload_view_any w t = rw t

  overrun :
      {w : Wire k} (v : IsValid k w)
      → w.capacity ≤ k.get_length w.header_received
      → w.poped + k.size + k.get_length w.header_received < size_mod
      → contiguous w ≡ true
      → w.capacity < read_address k w k.size + k.get_length w.header_received
  overrun {w} v h c t = elim (ℕ_discrete (k.get_length w.header_received) w.capacity) [
    | yes e ↦
        (let lap : (w.poped + k.size + w.capacity) % w.capacity ≡ (w.poped + k.size) % w.capacity =
            add-mod_right (w.poped + k.size) w.capacity in
          let a : add_size w.poped k.size ≡ w.poped + k.size = omega arith in
          let b : add_size (add_size w.poped k.size) (k.get_length w.header_received)
              ≡ w.poped + k.size + w.capacity =
            omega arith in
          let t' = rw (b, a, lap) at t in absurd (ground arith))
    | no p ↦ omega arith
  ]

  -- Where the body is at least as long as the ring and still passes the test of `payload`, the view
  -- runs past the ring's end, and `dispose` leaves more popped than was ever pushed.
  pub payload_overrun :
      {w : Wire k} (v : IsValid k w)
      → w.capacity ≤ k.get_length w.header_received
      → w.poped + k.size + k.get_length w.header_received < size_mod
      → contiguous w ≡ true
      → ((body : List ℕ) × ((payload k w).1 ≡ view body)
          × (w.capacity < read_address k w k.size + length body))
        × ¬ (IsValid k (dispose k (payload k w).0))
  payload_overrun {w} v h c t =
      let n = k.get_length w.header_received in
      (
        (
          load w.mem (read_address k w k.size) n,
          payload_view_any w t,
          rw (length-load w.mem (read_address k w k.size) n) (overrun v h c t),
        ),
        λ bad. absurd (over_popped bad),
      )
    where
      over_popped : IsValid k (dispose k (payload k w).0) → ⊥
      over_popped bad = let bad' = rw (dispose_view w t) at bad in omega arith
