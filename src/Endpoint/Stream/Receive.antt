-- ===== src/Endpoint/Stream/Receive.antt =====
-- The receive loops of the stream socket give the bytes that were sent, however the network cuts
-- them up.
use tateyama.Base.{
  ℕ, ◌-◌, ◌≤◌, ◌<◌, ◌≡◌, refl, ap, inl, inr, true, false, leb, ◌==◌, List, [], ◌∷◌, ◌++◌, length,
  take, drop, arith, length-append, length-drop, take-append_within, drop-append_within,
  drop-append, take-append_beyond, drop-append_beyond, Bool-cases,
}
use tateyama.Base.Text.{Str}
use tateyama.Endpoint.Stream.{Segment, bytes, failure, got, recv_bytes, left_over}

-- the segments carry these bytes and nothing else, and none of them is empty
abbrev pub Carries : List Segment → Str → Type 0
Carries [] u = u ≡ []
Carries (failure ∷ ss) u = ⊥
Carries (bytes b ∷ ss) u = (0 < length b) × (t : Str) × (u ≡ b ++ t) × Carries ss t

pub left_over-Carries :
    (size : ℕ) (b : Str) (ss : List Segment) (u t : Str)
    → u ≡ b ++ t
    → Carries ss t
    → size ≤ length b
    → Carries (left_over size b ss) (drop size u)
left_over-Carries size b ss u t e c h = elim (Bool-cases (size == length b)) [
  | inl whole ↦ (let n : size ≡ length b = ground arith in rw (whole, e, drop-append size b t n) c)
  | inr part ↦
      (let n : size < length b = ground arith in
        rw part
          (omega (arith, length-drop size b), t, rw (e, drop-append_within size b t h) refl, c))
]

abbrev pub Takes : ℕ → List Segment → Str → Type 0
Takes size ss u =
    (rest : List Segment) × (recv_bytes size ss ≡ (got (take size u), rest))
    × Carries rest (drop size u)

within_segment :
    (size b : ℕ) (bs : Str) (ss : List Segment) (u t : Str)
    → u ≡ (b ∷ bs) ++ t
    → Carries ss t
    → size ≤ length (b ∷ bs)
    → Takes size (bytes (b ∷ bs) ∷ ss) u
unfolding recv_bytes
within_segment size b bs ss u t e c h =
    let test : leb size (length (b ∷ bs)) ≡ true = ground arith in
    let first : take size u ≡ take size (b ∷ bs) =
      rw (e, take-append_within size (b ∷ bs) t h) refl in
    (
      left_over size (b ∷ bs) ss,
      rw (test, first) refl,
      left_over-Carries size (b ∷ bs) ss u t e c h,
    )

beyond_segment :
    (size b : ℕ) (bs : Str) (ss : List Segment) (u t : Str)
    → u ≡ (b ∷ bs) ++ t
    → length (b ∷ bs) < size
    → Takes (size - length (b ∷ bs)) ss t
    → Takes size (bytes (b ∷ bs) ∷ ss) u
unfolding recv_bytes
beyond_segment size b bs ss u t e h (rest, q, k) =
    let test : leb size (length (b ∷ bs)) ≡ false = ground arith in
    let le : length (b ∷ bs) ≤ size = omega arith in
    (
      rest,
      rw (test, q, e, take-append_beyond size (b ∷ bs) t le) refl,
      rw (e, drop-append_beyond size (b ∷ bs) t le) k,
    )

-- `recv(to, size)` takes the first `size` bytes, where so many come.
pub recv_bytes-Carries :
    (size : ℕ) (ss : List Segment) (u : Str)
    → Carries ss u
    → size ≤ length u
    → 0 < size
    → Takes size ss u
recv_bytes-Carries size [] u c h pos = absurd (omega (arith, ap length c))
recv_bytes-Carries size (failure ∷ ss) u c h pos = absurd c
recv_bytes-Carries size (bytes [] ∷ ss) u (n, t, e, c) h pos = absurd (omega (arith, n))
recv_bytes-Carries size (bytes (b ∷ bs) ∷ ss) u (n, t, e, c) h pos =
    elim (Bool-cases (leb size (length (b ∷ bs)))) [
      | inl within ↦ within_segment size b bs ss u t e c (ground arith)
      | inr beyond ↦
          (let more : size - length (b ∷ bs) ≤ length t =
              omega (arith, ap length e, length-append (b ∷ bs) t) in
            let m : length (b ∷ bs) < size = ground arith in
            beyond_segment size b bs ss u t e m
              (recv_bytes-Carries (size - length (b ∷ bs)) ss t c more (omega arith)))
    ]
