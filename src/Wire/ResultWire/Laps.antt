-- ===== src/Wire/ResultWire/Laps.antt =====
-- Where a record goes round the ring's end: the quotients that `get_chunk` compares.
use native.Mathlib.Nat.{div-add-mod, mod-lt, div-eq_of_lt-le}
use native.Mathlib.Decide.{dec_le}
use tateyama.Base.{ℕ, ◌+◌, ◌-◌, ◌*◌, ◌/◌, ◌%◌, ◌≤◌, ◌<◌, ◌≡◌, refl, sym, ap, ap₂, ◌∙◌, ◌++◌, arith}
use tateyama.Base.Mod.{add-mod_cases}
use tateyama.Wire.Ring.{Memory, load}
use tateyama.Wire.Ring.Stream.{stream, stream-append, load-eq-stream}

module _ (cap a n : ℕ) (hc : 0 < cap) (hn : 0 < n) where
  -- the lap of a position, as a multiple of the capacity
  lap : (p : ℕ) → (p / cap) * cap + p % cap ≡ p
  lap p = omega (arith, div-add-mod p cap)

  same_lap : a % cap + n ≤ cap → a / cap ≡ (a + n - 1) / cap
  same_lap h = sym (
      div-eq_of_lt-le {k = a / cap} cap {m = a + n - 1} (omega (arith, lap a))
        (omega (arith, lap a)))

  pub same_lap_fits : a / cap ≡ (a + n - 1) / cap → a % cap + n ≤ cap
  same_lap_fits e =
      omega (arith, lap a, lap (a + n - 1), ap (λ (q : ℕ). q * cap) e, mod-lt (a + n - 1) hc)

  pub other_lap : (a / cap ≡ (a + n - 1) / cap → ⊥) → cap < a % cap + n
  other_lap ne = elim (dec_le (a % cap + n) cap) [
    | yes h ↦ absurd (ne (same_lap h))
    | no h ↦ omega arith
  ]

  -- The end of the ring lies `cap - a % cap` past the position.
  pub buffer_end_lem :
      (p : ℕ) → cap < a % cap + n → a + n ≤ p → p < a + cap → (p / cap) * cap ≡ a + (cap - a % cap)
  buffer_end_lem p h l u =
      let q : p / cap ≡ a / cap + 1 =
        div-eq_of_lt-le {k = a / cap + 1} cap {m = p} (omega (arith, lap a))
          (omega (arith, lap a, mod-lt a hc)) in
      omega (arith, lap a, ap (λ (k : ℕ). k * cap) q, mod-lt a hc)

-- The bytes of the stretch, in the two parts that it has in the ring.
pub load_round :
    (cap : ℕ) (m : Memory) (a n : ℕ)
    → 0 < cap
    → n ≤ cap
    → cap < a % cap + n
    → load m (a % cap) (cap - a % cap) ++ load m ((a + (cap - a % cap)) % cap) (n - (cap - a % cap))
      ≡ stream cap m a n
load_round cap m a n hc hn h =
    ap₂ ◌++◌ (load-eq-stream cap m a (a % cap) (cap - a % cap) hc refl (omega (arith, mod-lt a hc)))
      (load-eq-stream cap m (a + (cap - a % cap)) ((a + (cap - a % cap)) % cap)
        (n - (cap - a % cap)) hc refl (ground (arith, add-mod_cases a (cap - a % cap) cap hc)))
    ∙ sym (stream-append cap m a (cap - a % cap) (n - (cap - a % cap)))
    ∙ ap (stream cap m a) whole
  where
    whole : (cap - a % cap) + (n - (cap - a % cap)) ≡ n
    whole = omega arith
