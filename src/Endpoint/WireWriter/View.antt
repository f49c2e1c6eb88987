-- ===== src/Endpoint/WireWriter/View.antt =====
-- What the wire holds once the annexes have been moved to it, and how the operations of one annex
-- change it.
use tateyama.Base.{
  ℕ, ◌+◌, ◌≤◌, ◌<◌, ◌≡◌, refl, sym, ap, ap₂, ◌∙◌, true, ltb, List, [], ◌∷◌, ◌++◌, length, take,
  drop, arith, append-nil, append_assoc, take-append_within, drop-append_within, length-drop,
  take-all, drop-all, Bool-cases, inl, inr, All,
}
use tateyama.Base.Text.{Str}
use tateyama.Endpoint.WireWriter.{Sink, sink_write, sink_flush, Annex, annex_write, annex_flush}

unfoldable pub replay : List ℕ → Str → Sink → Sink
replay [] bs s = sink_write bs s
replay (n ∷ ns) bs s = replay ns (drop n bs) (sink_flush (sink_write (take n bs) s))

abbrev pub replay_annex : Annex → Sink → Sink
replay_annex a s = replay a.chunks (drop a.read_point a.buffer) s

unfoldable pub replay_all : List Annex → Sink → Sink
replay_all [] s = s
replay_all (a ∷ q) s = replay_all q (replay_annex a s)

abbrev pub total : List ℕ → ℕ
total [] = 0
total (n ∷ ns) = n + total ns

pub sink_write-nil : (s : Sink) → sink_write [] s ≡ s
unfolding sink_write
sink_write-nil s = elim (Bool-cases s.closed) [
  | inl c ↦ ground arith
  | inr c ↦ ground (arith, append-nil s.current)
]

pub sink_write-append :
    (a b : Str) (s : Sink) → sink_write b (sink_write a s) ≡ sink_write (a ++ b) s
unfolding sink_write
sink_write-append a b s = ground (arith, append_assoc s.current a b)

pub sink_write-closed : (a : Str) (s : Sink) → (sink_write a s).closed ≡ s.closed
unfolding sink_write
sink_write-closed a s = ground arith

pub sink_flush-closed : (s : Sink) → (sink_flush s).closed ≡ s.closed
unfolding sink_flush
sink_flush-closed s = refl

replay-append :
    (ns : List ℕ) (bs x : Str) (s : Sink)
    → total ns ≤ length bs
    → replay ns (bs ++ x) s ≡ sink_write x (replay ns bs s)
unfolding replay
replay-append [] bs x s h = sym (sink_write-append bs x s)
replay-append (n ∷ ns) bs x s h =
    let le : n ≤ length bs = omega (arith, h) in
    ap₂ (λ (d t : Str). replay ns d (sink_flush (sink_write t s))) (drop-append_within n bs x le)
      (take-append_within n bs x le)
    ∙ replay-append ns (drop n bs) x (sink_flush (sink_write (take n bs) s))
        (omega (arith, h, length-drop n bs))

replay-flush :
    (ns : List ℕ) (k : ℕ) (bs : Str) (s : Sink)
    → total ns + k ≡ length bs
    → replay (ns ++ (k ∷ [])) bs s ≡ sink_flush (replay ns bs s)
unfolding replay
replay-flush [] k bs s h =
    let le : length bs ≤ k = omega (arith, h) in
    rw (drop-all k bs le, take-all k bs le) (sink_write-nil (sink_flush (sink_write bs s)))
replay-flush (n ∷ ns) k bs s h =
    replay-flush ns k (drop n bs) (sink_flush (sink_write (take n bs) s))
      (omega (arith, h, length-drop n bs))

-- the places and sizes in an annex agree, and it has not outgrown its buffer
pub record IsGood (a : Annex) : Type 0 where
  pub position : a.read_point + total a.chunks ≡ a.write_pos
  pub filled : length a.buffer ≡ a.write_pos + a.chunk_size
  pub within : length a.buffer ≤ a.capacity
  pub positive : All (λ (n : ℕ). 0 < n) a.chunks

pub annex_write-buffer :
    (a : Annex) (from : Str) → IsGood a → (annex_write from a).buffer ≡ a.buffer ++ from
unfolding annex_write
annex_write-buffer a from g =
    let le : length a.buffer ≤ a.write_pos + a.chunk_size = omega (arith, g.filled) in
    ap₂ (λ (t d : Str). t ++ (from ++ d)) (take-all _ a.buffer le) (drop-all _ a.buffer le)
    ∙ ap (λ (t : Str). a.buffer ++ t) (append-nil from)

pub replay-annex_write :
    (a : Annex) (from : Str) (s : Sink)
    → IsGood a
    → replay_annex (annex_write from a) s ≡ sink_write from (replay_annex a s)
unfolding annex_write
replay-annex_write a from s g =
    let le : a.read_point ≤ length a.buffer = omega (arith, g.position, g.filled) in
    ap (λ (t : Str). replay a.chunks (drop a.read_point t) s) (annex_write-buffer a from g)
    ∙ (ap (λ (t : Str). replay a.chunks t s) (drop-append_within a.read_point a.buffer from le)
        ∙ replay-append a.chunks (drop a.read_point a.buffer) from s
            (omega (arith, g.position, g.filled, length-drop a.read_point a.buffer)))

pub replay-annex_flush :
    (a : Annex) (s : Sink)
    → IsGood a
    → 0 < a.chunk_size
    → replay_annex (annex_flush a) s ≡ sink_flush (replay_annex a s)
unfolding annex_flush
replay-annex_flush a s g pos =
    let test : ltb 0 a.chunk_size ≡ true = ground arith in
    rw test (
      replay-flush a.chunks a.chunk_size (drop a.read_point a.buffer) s
        (omega (arith, g.position, g.filled, length-drop a.read_point a.buffer)))
