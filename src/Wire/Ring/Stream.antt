-- ===== src/Wire/Ring/Stream.antt =====
-- The ring as a window on an endless stream of bytes: position `p` of the stream lies at the
-- address `p % capacity`.
use tateyama.Base.{
  ℕ, zero, suc, ◌+◌, ◌%◌, ◌≤◌, ◌<◌, ◌≡◌, refl, ap, ap₂, ◌∙◌, List, [], ◌∷◌, ◌++◌, arith, length,
  get_or,
}
use tateyama.Base.Mod.{add-mod_cases}
use tateyama.Wire.Ring.{Memory, load}

-- the `n` bytes of the stream from position `p` on
unfoldable pub stream : ℕ → Memory → ℕ → ℕ → List ℕ
stream capacity m p zero = []
stream capacity m p (suc n) = m (p % capacity) ∷ stream capacity m (p + 1) n

module _ (capacity : ℕ) (m : Memory) where
  at_stretch : (p q n k : ℕ) → p ≡ q → n ≡ k → stream capacity m p n ≡ stream capacity m q k
  at_stretch p q n k e f = ap₂ (stream capacity m) e f

  pub length-stream : (p n : ℕ) → length (stream capacity m p n) ≡ n
  unfolding stream
  length-stream p zero = refl
  length-stream p (suc n) = ap suc (length-stream (p + 1) n)

  pub stream-append :
      (p a b : ℕ)
      → stream capacity m p (a + b) ≡ stream capacity m p a ++ stream capacity m (p + a) b
  unfolding stream
  stream-append p zero b = at_stretch p (p + 0) (0 + b) b (omega arith) (omega arith)
  stream-append p (suc a) b =
      at_stretch p p (suc a + b) (suc (a + b)) refl (omega arith)
      ∙ ap (◌∷◌ (m (p % capacity))) (
          stream-append (p + 1) a b
          ∙ ap (◌++◌ (stream capacity m (p + 1) a))
              (at_stretch (p + 1 + a) (p + suc a) b b (omega arith) refl))

  at_position : (p q : ℕ) → p ≡ q → m (p % capacity) ≡ m (q % capacity)
  at_position p q e = ap (λ k. m (k % capacity)) e

  -- a stretch of the stream is given by its bytes one by one
  pub stream-eq :
      (p : ℕ) (bs : List ℕ)
      → ((i : ℕ) → i < length bs → m ((p + i) % capacity) ≡ get_or bs i 0)
      → stream capacity m p (length bs) ≡ bs
  unfolding stream
  stream-eq p [] h = refl
  stream-eq p (b ∷ bs) h = ap₂ ◌∷◌ (at_position p (p + 0) (omega arith) ∙ h 0 (omega arith)) (
      stream-eq (p + 1) bs
        (λ i hi. at_position (p + 1 + i) (p + suc i) (omega arith) ∙ h (suc i) (omega arith)))

-- memories that agree on a stretch have the same stream there
pub stream-congr :
    (capacity : ℕ) (m m' : Memory) (p n : ℕ)
    → ((i : ℕ) → i < n → m ((p + i) % capacity) ≡ m' ((p + i) % capacity))
    → stream capacity m p n ≡ stream capacity m' p n
unfolding stream
stream-congr capacity m m' p zero h = refl
stream-congr capacity m m' p (suc n) h =
    ap₂ ◌∷◌
      (at_position capacity m p (p + 0) (omega arith)
        ∙ h 0 (omega arith)
        ∙ at_position capacity m' (p + 0) p (omega arith))
      (stream-congr capacity m m' (p + 1) n (λ i hi.
        at_position capacity m (p + 1 + i) (p + suc i) (omega arith)
        ∙ h (suc i) (omega arith)
        ∙ at_position capacity m' (p + suc i) (p + 1 + i) (omega arith)))

-- bytes at consecutive addresses, with no wrap, are a stretch of the stream
pub load-eq-stream :
    (capacity : ℕ) (m : Memory) (p a n : ℕ)
    → 0 < capacity
    → a ≡ p % capacity
    → a + n ≤ capacity
    → load m a n ≡ stream capacity m p n
unfolding stream
load-eq-stream capacity m p a zero hc e h = refl
load-eq-stream capacity m p a (suc zero) hc e h = ap (λ k. m k ∷ []) e
load-eq-stream capacity m p a (suc (suc n)) hc e h = ap₂ ◌∷◌ (ap m e) (
    load-eq-stream capacity m (p + 1) (a + 1) (suc n) hc
      (ground (arith, add-mod_cases p 1 capacity hc)) (omega arith))
