-- ===== src/Endpoint/WireWriter/Moving.antt =====
-- A round of the transfer moves what it takes from the annex to the wire.
use mathlib.Core.Path.{subst}
use tateyama.Base.{
  ℕ, zero, suc, ◌≤◌, ◌<◌, ◌≡◌, ◌⊎◌, refl, sym, ap, ◌∙◌, Bool, true, false, List, [], ◌∷◌, length,
  drop, arith, length-drop, take-all, Bool-cases, inl, inr,
}
use tateyama.Endpoint.WireWriter.{
  Sink, sink_write, sink_flush, Annex, advance, exhausted, transfer, transfer_rest, transfer_chunk,
  Transfer, waits, goes_on, ends, next_bytes,
}
use tateyama.Endpoint.WireWriter.Annexes.{advance-IsGood, transfer_chunk-replay, replay-nothing}
use tateyama.Endpoint.WireWriter.View.{
  replay, replay_annex, total, IsGood, sink_write-closed, sink_flush-closed,
}

-- A round of the transfer to an open wire. The wire and the rest of the annexes come to the same as
-- before; an annex that the transfer is done with has no rest, and is full, unless the writer is
-- released.
pub data Moves (released : Bool) (a : Annex) (s : Sink) : Transfer → Annex → Sink → Type 0 where
  waited : Moves released a s waits a s
  moved :
      (a' : Annex) (s' : Sink)
      → IsGood a'
      → replay_annex a' s' ≡ replay_annex a s
      → s'.closed ≡ false
      → a'.chunk_size ≡ a.chunk_size
      → a'.full ≡ a.full
      → Moves released a s goes_on a' s'
  done :
      (a' : Annex) (s' : Sink)
      → s' ≡ replay_annex a s
      → s'.closed ≡ false
      → (released ≡ true) ⊎ (a.full ≡ true)
      → Moves released a s (ends true) a' s'

abbrev pub Moved : Bool → Annex → Sink → Transfer × Annex × Sink → Type 0
Moved released a s (t, a', s') = Moves released a s t a' s'

pub transfer_at_end :
    (released : Bool) (a : Annex) (s : Sink)
    → exhausted a ≡ true
    → transfer released a s ≡ (ends true, a, s)
unfolding transfer
transfer_at_end released a s e = ground arith

pub transfer_at_rest :
    (released : Bool) (a : Annex) (s : Sink)
    → exhausted a ≡ false
    → a.chunks ≡ []
    → transfer released a s ≡ transfer_rest released a s
unfolding transfer
transfer_at_rest released a s e c = ground arith

pub transfer_at_chunk :
    (released : Bool) (a : Annex) (s : Sink) (size : ℕ) (rest : List ℕ)
    → exhausted a ≡ false
    → a.chunks ≡ size ∷ rest
    → transfer released a s ≡ transfer_chunk size (record a { chunks = rest }) s
unfolding transfer
transfer_at_chunk released a s size rest e c = ground arith

pub zero_or_more : (n : ℕ) → (n ≡ 0) ⊎ (0 < n)
zero_or_more zero = inl refl
zero_or_more (suc n) = inr (omega arith)

end-Moved :
    (released : Bool) (a : Annex) (s : Sink)
    → IsGood a
    → s.closed ≡ false
    → exhausted a ≡ true
    → Moves released a s (ends true) a s
unfolding exhausted
end-Moved released a s g o e =
    done a s (sym (replay-nothing a s g (ground arith))) o (inr (ground arith))

pub open_chunk :
    (size : ℕ) (a : Annex) (s : Sink)
    → s.closed ≡ false
    → transfer_chunk size a s
      ≡ (goes_on, advance a size, sink_flush (sink_write (next_bytes a size) s))
unfolding transfer_chunk
open_chunk size a s o = ground arith

chunk-Moved :
    (released : Bool) (a : Annex) (s : Sink) (size : ℕ) (rest : List ℕ)
    → IsGood a
    → s.closed ≡ false
    → a.chunks ≡ size ∷ rest
    → Moved released a s (transfer_chunk size (record a { chunks = rest }) s)
chunk-Moved released a s size rest g o e =
    subst (Moved released a s) (sym (open_chunk size (record a { chunks = rest }) s o)) (
      moved _ _ (advance-IsGood a size rest e g) (transfer_chunk-replay a size rest s e)
        (sink_flush-closed (sink_write (next_bytes a size) s)
          ∙ (sink_write-closed (next_bytes a size) s ∙ o))
        refl refl)

last_piece :
    (a : Annex) (s : Sink)
    → IsGood a
    → a.chunks ≡ []
    → sink_write (next_bytes a a.chunk_size) s ≡ replay_annex a s
unfolding replay
last_piece a s g e =
    let n : length (drop a.read_point a.buffer) ≤ a.chunk_size =
      omega (arith, g.position, g.filled, ap total e, length-drop a.read_point a.buffer) in
    rw (e, take-all a.chunk_size (drop a.read_point a.buffer) n) refl

nothing_left :
    (a : Annex) → IsGood a → a.chunks ≡ [] → a.chunk_size ≡ 0 → length a.buffer ≤ a.read_point
nothing_left a g e z = omega (arith, g.position, g.filled, ap total e, z)

-- the four ends of a round with no finished chunk
pub rest_released :
    (a : Annex) (s : Sink) → a.chunk_size ≡ 0 → transfer_rest true a s ≡ (ends true, a, s)
unfolding transfer_rest
rest_released a s z = ground arith

pub rest_of_full :
    (released : Bool) (a : Annex) (s : Sink)
    → s.closed ≡ false
    → a.full ≡ true
    → 0 < a.chunk_size
    → transfer_rest released a s
      ≡ (ends true, advance a a.chunk_size, sink_write (next_bytes a a.chunk_size) s)
unfolding transfer_rest
rest_of_full released a s o f pos = ground arith

pub rest_of_empty :
    (released : Bool) (a : Annex) (s : Sink)
    → a.full ≡ true
    → a.chunk_size ≡ 0
    → transfer_rest released a s ≡ (ends true, a, s)
unfolding transfer_rest
rest_of_empty released a s f z = ground arith

rest_spins :
    (a : Annex) (s : Sink)
    → a.full ≡ false
    → 0 < a.chunk_size
    → transfer_rest true a s ≡ (goes_on, a, s)
unfolding transfer_rest
rest_spins a s f pos = ground arith

rest_waits : (a : Annex) (s : Sink) → a.full ≡ false → transfer_rest false a s ≡ (waits, a, s)
unfolding transfer_rest
rest_waits a s f = ground arith

full-Moved :
    (released : Bool) (a : Annex) (s : Sink)
    → IsGood a
    → s.closed ≡ false
    → a.chunks ≡ []
    → a.full ≡ true
    → Moved released a s (transfer_rest released a s)
full-Moved released a s g o e f = elim (zero_or_more a.chunk_size) [
  | inl z ↦
      subst (Moved released a s) (sym (rest_of_empty released a s f z))
        (done a s (sym (replay-nothing a s g (nothing_left a g e z))) o (inr f))
  | inr pos ↦
      subst (Moved released a s) (sym (rest_of_full released a s o f pos)) (
        done _ _ (last_piece a s g e) (sink_write-closed (next_bytes a a.chunk_size) s ∙ o) (inr f))
]

open-Moved :
    (released : Bool) (a : Annex) (s : Sink)
    → IsGood a
    → s.closed ≡ false
    → a.chunks ≡ []
    → a.full ≡ false
    → Moved released a s (transfer_rest released a s)
open-Moved false a s g o e f = subst (Moved false a s) (sym (rest_waits a s f)) waited
open-Moved true a s g o e f = elim (zero_or_more a.chunk_size) [
  | inl z ↦
      subst (Moved true a s) (sym (rest_released a s z))
        (done a s (sym (replay-nothing a s g (nothing_left a g e z))) o (inl refl))
  | inr pos ↦ subst (Moved true a s) (sym (rest_spins a s f pos)) (moved a s g refl o refl refl)
]

rest-Moved :
    (released : Bool) (a : Annex) (s : Sink)
    → IsGood a
    → s.closed ≡ false
    → a.chunks ≡ []
    → Moved released a s (transfer_rest released a s)
rest-Moved released a s g o e = elim (Bool-cases a.full) [
  | inl f ↦ full-Moved released a s g o e f
  | inr f ↦ open-Moved released a s g o e f
]

going-Moved :
    (released : Bool) (a : Annex) (s : Sink) (ns : List ℕ)
    → IsGood a
    → s.closed ≡ false
    → exhausted a ≡ false
    → a.chunks ≡ ns
    → Moved released a s (transfer released a s)
going-Moved released a s [] g o x e =
    subst (Moved released a s) (sym (transfer_at_rest released a s x e))
      (rest-Moved released a s g o e)
going-Moved released a s (size ∷ rest) g o x e =
    subst (Moved released a s) (sym (transfer_at_chunk released a s size rest x e))
      (chunk-Moved released a s size rest g o e)

pub transfer-Moved :
    (released : Bool) (a : Annex) (s : Sink)
    → IsGood a
    → s.closed ≡ false
    → Moved released a s (transfer released a s)
transfer-Moved released a s g o = elim (Bool-cases (exhausted a)) [
  | inl e ↦
      subst (Moved released a s) (sym (transfer_at_end released a s e))
        (end-Moved released a s g o e)
  | inr e ↦ going-Moved released a s a.chunks g o e refl
]
