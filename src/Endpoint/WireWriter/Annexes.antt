-- ===== src/Endpoint/WireWriter/Annexes.antt =====
-- The operations of an annex keep its places and sizes in order.
use mathlib.Core.Path.{subst}
use tateyama.Base.{
  ℕ, zero, suc, ◌+◌, ◌≤◌, ◌<◌, ◌≡◌, refl, sym, ap, ◌∙◌, true, List, [], ◌∷◌, ◌++◌, length, drop,
  arith, length-append, drop-all, Bool-cases, inl, inr, All, All-append, ltb,
}
use tateyama.Base.Text.{Str}
use tateyama.Endpoint.WireWriter.{
  Sink, sink_write, sink_flush, Annex, annex, is_room, set_full, annex_write, annex_flush, advance,
  next_bytes,
}
use tateyama.Endpoint.WireWriter.View.{
  replay, replay_annex, total, IsGood, annex_write-buffer, sink_write-nil,
}

pub annex-IsGood : (size : ℕ) → IsGood (annex size)
unfolding annex
annex-IsGood size = record { position = refl; filled = refl; within = omega arith; positive = tt }

pub set_full-IsGood : (a : Annex) → IsGood a → IsGood (set_full a)
set_full-IsGood a g = record {
  position = g.position;
  filled = g.filled;
  within = g.within;
  positive = g.positive;
}

pub annex_write-IsGood :
    (a : Annex) (from : Str)
    → is_room a (length from) ≡ true
    → IsGood a
    → IsGood (annex_write from a)
unfolding annex_write is_room
annex_write-IsGood a from room g =
    let n : length (annex_write from a).buffer ≡ length a.buffer + length from =
      ap length (annex_write-buffer a from g) ∙ length-append a.buffer from in
    record {
      position = g.position;
      filled = omega (arith, n, g.filled);
      within = ground (arith, n, g.filled);
      positive = g.positive;
    }

total-append : (ns : List ℕ) (k : ℕ) → total (ns ++ (k ∷ [])) ≡ total ns + k
total-append [] k = omega arith
total-append (n ∷ ns) k = omega (arith, total-append ns k)

pub annex_flush-IsGood : (a : Annex) → IsGood a → IsGood (annex_flush a)
unfolding annex_flush
annex_flush-IsGood a g = elim (Bool-cases (ltb 0 a.chunk_size)) [
  | inl some_ ↦ rw some_ (record {
    position = omega (arith, g.position, total-append a.chunks a.chunk_size);
    filled = omega (arith, g.filled);
    within = g.within;
    positive =
        All-append (λ (n : ℕ). 0 < n) a.chunks (a.chunk_size ∷ []) g.positive (ground arith, tt);
  })
  | inr none_ ↦ rw none_ (record {
    position = ground (arith, g.position);
    filled = omega (arith, g.filled);
    within = g.within;
    positive = g.positive;
  })
]

pub advance-IsGood :
    (a : Annex) (size : ℕ) (rest : List ℕ)
    → a.chunks ≡ size ∷ rest
    → IsGood a
    → IsGood (advance (record a { chunks = rest }) size)
advance-IsGood a size rest e g = record {
  position = omega (arith, g.position, ap total e);
  filled = g.filled;
  within = g.within;
  positive = (subst (All (λ (n : ℕ). 0 < n)) e g.positive).1;
}

-- how the wire and what is left in an annex come together
drop-add {ℓ} : {A : Type ℓ} (m n : ℕ) (xs : List A) → drop (m + n) xs ≡ drop n (drop m xs)
drop-add zero n xs = ap (λ (k : ℕ). drop k xs) (omega arith)
drop-add (suc m) n [] = drop-all (suc m + n) [] (omega arith) ∙ sym (drop-all n [] (omega arith))
drop-add (suc m) n (x ∷ xs) =
    let e : suc m + n ≡ suc (m + n) = omega arith in
    ap (λ (k : ℕ). drop k (x ∷ xs)) e ∙ drop-add m n xs

pub transfer_chunk-replay :
    (a : Annex) (size : ℕ) (rest : List ℕ) (s : Sink)
    → a.chunks ≡ size ∷ rest
    → replay_annex
        (advance (record a { chunks = rest }) size)
        (sink_flush (sink_write (next_bytes a size) s))
      ≡ replay_annex a s
unfolding replay
transfer_chunk-replay a size rest s e = rw (e, drop-add a.read_point size a.buffer) refl

no_chunks : (ns : List ℕ) → All (λ (n : ℕ). 0 < n) ns → total ns ≡ 0 → ns ≡ []
no_chunks [] p h = refl
no_chunks (n ∷ ns) (p, ps) h = absurd (omega (arith, p, h))

-- where nothing is left, there is nothing to move
pub replay-nothing :
    (a : Annex) (s : Sink) → IsGood a → length a.buffer ≤ a.read_point → replay_annex a s ≡ s
unfolding replay
replay-nothing a s g h =
    let none_left : a.chunks ≡ [] =
      no_chunks a.chunks g.positive (omega (arith, g.position, g.filled)) in
    rw (none_left, drop-all a.read_point a.buffer h) (sink_write-nil s)
