-- ===== src/Wire/SimpleWire/Valid.antt =====
-- The representation invariant of a wire, the bytes that it holds, and what one copy in or out of
-- the ring does to them.
use tateyama.Base.{ℕ, ◌+◌, ◌-◌, ◌^◌, ◌≤◌, ◌<◌, ◌≡◌, sym, ap, ◌∙◌, List, ◌++◌, arith, length}
use tateyama.Base.Words.{size_mod}
use tateyama.Wire.Ring.{Memory, index, write_in_buffer, read_from_buffer}
use tateyama.Wire.Ring.Stream.{stream, stream-append, length-stream}
use tateyama.Wire.Ring.Copy.{
  stream-write_in_buffer, stream-write_in_buffer_before, read_from_buffer-eq-stream,
}
use tateyama.Wire.Header.{HeaderKind}
use tateyama.Wire.SimpleWire.{Wire, stored, room}

module _ (k : HeaderKind) where
  open k use {Header, size}

  -- The ring has room for a header, the counters have not wrapped, and no more is stored than fits.
  pub record IsValid (w : Wire k) : Type 0 where
    pub roomy : size ≤ w.capacity
    pub small : w.capacity < 2 ^ 62
    pub ordered : w.poped ≤ w.pushed
    pub fits : w.pushed ≤ w.poped + w.capacity
    pub counted : w.pushed < size_mod

  -- the bytes that are pushed and not yet popped, oldest first
  unfoldable pub contents : Wire k → List ℕ
  contents w = stream w.capacity w.mem w.poped (w.pushed - w.poped)

module _ (k : HeaderKind) {w : Wire k} (v : IsValid k w) where
  pub stored-eq : stored k w ≡ w.pushed - w.poped
  stored-eq = omega arith

  pub room-eq : room k w ≡ w.capacity - (w.pushed - w.poped)
  room-eq = omega arith

  pub stored-length : stored k w ≡ length (contents k w)
  unfolding contents
  stored-length = omega (arith, length-stream w.capacity w.mem w.poped (w.pushed - w.poped))

  pub capacity_pos : 0 < w.capacity
  capacity_pos = omega (arith, k.size_pos)

module _ (k : HeaderKind) where
  -- the bytes that a copy to the end of the contents adds
  pub contents-push :
      {w : Wire k} (v : IsValid k w) (bs : List ℕ) (n : ℕ)
      → n ≡ w.pushed + length bs
      → length bs ≤ room k w
      → contents k (record w {
        mem = write_in_buffer w.capacity w.mem (index w.capacity w.pushed) bs;
        pushed = n;
      })
        ≡ contents k w ++ bs
  unfolding contents
  contents-push {w} v bs n e h =
      ap (stream w.capacity after w.poped) split
      ∙ stream-append w.capacity after w.poped (w.pushed - w.poped) (length bs)
      ∙ (λ i. old i ++ new i)
    where
      after : Memory
      after = write_in_buffer w.capacity w.mem (index w.capacity w.pushed) bs

      split : n - w.poped ≡ (w.pushed - w.poped) + length bs
      split = omega arith

      old :
          stream w.capacity after w.poped (w.pushed - w.poped)
          ≡ stream w.capacity w.mem w.poped (w.pushed - w.poped)
      old =
          stream-write_in_buffer_before w.capacity w.mem w.poped (w.pushed - w.poped) w.pushed bs
            (capacity_pos k v) (omega arith) (omega arith)

      place : w.poped + (w.pushed - w.poped) ≡ w.pushed
      place = omega arith

      new : stream w.capacity after (w.poped + (w.pushed - w.poped)) (length bs) ≡ bs
      new =
          rw place
            (stream-write_in_buffer w.capacity w.mem w.pushed bs (capacity_pos k v) (omega arith))

  -- the bytes that a copy from the front of the contents gives, and what is left
  pub contents-pop :
      {w : Wire k} (v : IsValid k w) (n p : ℕ)
      → p ≡ w.poped + n
      → n ≤ stored k w
      → contents k w
        ≡ read_from_buffer w.capacity w.mem (index w.capacity w.poped) n
          ++ contents k (record w { poped = p })
  unfolding contents
  contents-pop {w} v n p e h =
      ap (stream w.capacity w.mem w.poped) split
      ∙ stream-append w.capacity w.mem w.poped n (w.pushed - p)
      ∙ (λ i. front (sym e) i)
    where
      split : w.pushed - w.poped ≡ n + (w.pushed - p)
      split = omega arith

      front :
          w.poped + n ≡ p
          → stream w.capacity w.mem w.poped n
              ++ stream w.capacity w.mem (w.poped + n) (w.pushed - p)
            ≡ read_from_buffer w.capacity w.mem (index w.capacity w.poped) n
              ++ stream w.capacity w.mem p (w.pushed - p)
      front q = rw (
        read_from_buffer-eq-stream w.capacity w.mem w.poped n (capacity_pos k v) (omega arith),
        q,
      )
