-- ===== src/Wire/Ring/Copy.antt =====
-- What `write_in_buffer` and `read_from_buffer` do to the stream.
use tateyama.Base.{
  ℕ, ◌+◌, ◌-◌, ◌%◌, ◌≤◌, ◌<◌, ◌≡◌, refl, sym, ap, ap₂, ◌∙◌, inl, inr, List, ◌++◌, arith, length,
  get_or, take, length-take, length-drop, get_or-take, get_or-drop, leb, leb→le, Bool-cases, ◌⊎◌,
}
use tateyama.Base.Mod.{add-mod_cases}
use tateyama.Wire.Ring.{Memory, load, write_in_buffer, read_from_buffer}
use tateyama.Wire.Ring.Stream.{stream, stream-append, stream-eq, stream-congr, load-eq-stream}
use native.Mathlib.Nat.{mod-lt, add-mod_right}

module _ (capacity : ℕ) (m : Memory) (top : ℕ) (bs : List ℕ) (ht : top < capacity)
    (hl : length bs ≤ capacity) where
  -- a byte of the copy that does not wrap
  write_in_buffer_before :
      (i : ℕ)
      → i < length bs
      → top + i < capacity
      → write_in_buffer capacity m top bs (top + i) ≡ get_or bs i 0
  unfolding write_in_buffer
  write_in_buffer_before i hi h = ground (
    arith,
    ap (λ k. get_or bs k 0) sub,
    ap (λ k. get_or (take (capacity - top) bs) k 0) sub,
    get_or-take (capacity - top) i bs 0,
    length-take (capacity - top) bs,
    length-drop (capacity - top) bs,
  )
    where
      sub : top + i - top ≡ i
      sub = omega arith

  -- a byte of the copy that went round the end
  write_in_buffer_wrapped :
      (i : ℕ)
      → i < length bs
      → capacity ≤ top + i
      → write_in_buffer capacity m top bs (top + i - capacity) ≡ get_or bs i 0
  unfolding write_in_buffer
  write_in_buffer_wrapped i hi h = ground (
    arith,
    get_or-drop (capacity - top) (top + i - capacity - 0) bs 0,
    ap (λ k. get_or bs k 0) sub,
    length-drop (capacity - top) bs,
  )
    where
      sub : top + i - capacity - 0 + (capacity - top) ≡ i
      sub = omega arith

module _ (capacity : ℕ) (m : Memory) (top : ℕ) (bs : List ℕ) (ht : top < capacity)
    (hl : length bs ≤ capacity) where
  -- an address outside the copy, before its start or past its end
  write_in_buffer_outside :
      (a : ℕ)
      → (a < top) ⊎ (top + length bs ≤ a)
      → (a < capacity) ⊎ (top + length bs ≤ capacity)
      → capacity ≤ a + capacity - (top + length bs - capacity)
      → write_in_buffer capacity m top bs a ≡ m a
  unfolding write_in_buffer
  write_in_buffer_outside a h k g =
      ground (arith, length-take (capacity - top) bs, length-drop (capacity - top) bs)

-- The copy puts its bytes at the stream's positions from `p` on.
pub write_in_buffer_new :
    (capacity : ℕ) (m : Memory) (p : ℕ) (bs : List ℕ)
    → 0 < capacity
    → length bs ≤ capacity
    → (i : ℕ) → i < length bs
    → write_in_buffer capacity m (p % capacity) bs ((p + i) % capacity) ≡ get_or bs i 0
write_in_buffer_new capacity m p bs hc hl i hi =
    elim (add-mod_cases p i capacity hc (omega arith)) [
      | inl (h, e) ↦
          rw e (write_in_buffer_before capacity m (p % capacity) bs (mod-lt p hc) hl i hi h)
      | inr (h, e) ↦
          rw e (write_in_buffer_wrapped capacity m (p % capacity) bs (mod-lt p hc) hl i hi h)
    ]

-- It leaves the other positions of the lap as they were.
pub write_in_buffer_other :
    (capacity : ℕ) (m : Memory) (p : ℕ) (bs : List ℕ)
    → 0 < capacity
    → length bs ≤ capacity
    → (i : ℕ) → length bs ≤ i
    → i < capacity
    → write_in_buffer capacity m (p % capacity) bs ((p + i) % capacity) ≡ m ((p + i) % capacity)
write_in_buffer_other capacity m p bs hc hl i h k = elim (add-mod_cases p i capacity hc k) [
  | inl (q, e) ↦ rw e (
      write_in_buffer_outside capacity m (p % capacity) bs (mod-lt p hc) hl (p % capacity + i)
        (inr (omega arith)) (inl q) (omega arith))
  | inr (q, e) ↦ rw e (
      write_in_buffer_outside capacity m (p % capacity) bs (mod-lt p hc) hl
        (p % capacity + i - capacity) (inl (omega (arith, mod-lt p hc)))
        (inl (omega (arith, mod-lt p hc))) (omega (arith, mod-lt p hc)))
]

-- No copy touches an address outside the ring.
pub write_in_buffer_in_bounds :
    (capacity : ℕ) (m : Memory) (p : ℕ) (bs : List ℕ)
    → 0 < capacity
    → length bs ≤ capacity
    → (a : ℕ) → capacity ≤ a
    → write_in_buffer capacity m (p % capacity) bs a ≡ m a
unfolding write_in_buffer
write_in_buffer_in_bounds capacity m p bs hc hl a h = ground (
  arith,
  mod-lt p hc,
  length-take (capacity - p % capacity) bs,
  length-drop (capacity - p % capacity) bs,
)

-- Reading the written stretch gives the bytes back.
pub stream-write_in_buffer :
    (capacity : ℕ) (m : Memory) (p : ℕ) (bs : List ℕ)
    → 0 < capacity
    → length bs ≤ capacity
    → stream capacity (write_in_buffer capacity m (p % capacity) bs) p (length bs) ≡ bs
stream-write_in_buffer capacity m p bs hc hl =
    stream-eq capacity _ p bs (write_in_buffer_new capacity m p bs hc hl)

-- A stretch that ends where the copy starts, and is not lapped by it, stays.
pub stream-write_in_buffer_before :
    (capacity : ℕ) (m : Memory) (q n p : ℕ) (bs : List ℕ)
    → 0 < capacity
    → q + n ≤ p
    → p + length bs ≤ q + capacity
    → stream capacity (write_in_buffer capacity m (p % capacity) bs) q n ≡ stream capacity m q n
stream-write_in_buffer_before capacity m q n p bs hc h k = stream-congr capacity _ m q n λ i hi.
    let place : p + (q + i + capacity - p) ≡ q + i + capacity = omega arith in
    let same : (p + (q + i + capacity - p)) % capacity ≡ (q + i) % capacity =
      ap (λ (a : ℕ). a % capacity) place ∙ add-mod_right (q + i) capacity in
    rw same at (
      write_in_buffer_other capacity m p bs hc (omega arith) (q + i + capacity - p) (omega arith)
        (omega arith))

read_round :
    (capacity : ℕ) (m : Memory) (p n : ℕ)
    → 0 < capacity
    → n ≤ capacity
    → capacity < p % capacity + n
    → load m (p % capacity) (capacity - p % capacity) ++ load m 0 (n - (capacity - p % capacity))
      ≡ stream capacity m p n
read_round capacity m p n hc hn h =
    ap₂ ◌++◌
      (load-eq-stream capacity m p (p % capacity) first_part hc refl (omega (arith, mod-lt p hc)))
      (load-eq-stream capacity m (p + first_part) 0 (n - first_part) hc
        (ground (arith, add-mod_cases p first_part capacity hc)) (omega arith))
    ∙ sym (stream-append capacity m p first_part (n - first_part))
    ∙ ap (stream capacity m p) whole
  where
    first_part : ℕ
    first_part = capacity - p % capacity

    whole : first_part + (n - first_part) ≡ n
    whole = omega arith

-- `read_from_buffer` reads a stretch of the stream, also round the ring's end.
pub read_from_buffer-eq-stream :
    (capacity : ℕ) (m : Memory) (p n : ℕ)
    → 0 < capacity
    → n ≤ capacity
    → read_from_buffer capacity m (p % capacity) n ≡ stream capacity m p n
unfolding read_from_buffer
read_from_buffer-eq-stream capacity m p n hc hn =
    elim (Bool-cases (leb (p % capacity + n) capacity)) [
      | inl fits ↦ rw fits (load-eq-stream capacity m p (p % capacity) n hc refl (leb→le _ _ fits))
      | inr round ↦ rw round (read_round capacity m p n hc hn (ground arith))
    ]

-- A stretch that starts where the copy ends, or later in the lap, stays.
pub stream-write_in_buffer_after :
    (capacity : ℕ) (m : Memory) (q n p : ℕ) (bs : List ℕ)
    → 0 < capacity
    → length bs ≤ capacity
    → p + length bs ≤ q
    → q + n ≤ p + capacity
    → stream capacity (write_in_buffer capacity m (p % capacity) bs) q n ≡ stream capacity m q n
stream-write_in_buffer_after capacity m q n p bs hc hl h k =
    stream-congr capacity (write_in_buffer capacity m (p % capacity) bs) m q n λ i hi.
      let place : p + (q + i - p) ≡ q + i = omega arith in
      rw place at
        (write_in_buffer_other capacity m p bs hc hl (q + i - p) (omega arith) (omega arith))
