-- ===== src/Endpoint/WireWriter/Queue.antt =====
-- `write` and `flush` to the last of the annexes.
use tateyama.Base.{
  ℕ, ◌≤◌, ◌<◌, ◌≡◌, refl, ap, ◌∙◌, true, false, List, [], ◌∷◌, length, arith, Bool-cases, inl, inr,
  All,
}
use tateyama.Base.Text.{Str}
use tateyama.Endpoint.WireWriter.{
  Sink, sink_write, sink_flush, Annex, annex, is_room, set_full, annex_write, annex_flush,
  extend_queue, flush_last,
}
use tateyama.Endpoint.WireWriter.Annexes.{
  annex-IsGood, set_full-IsGood, annex_write-IsGood, annex_flush-IsGood,
}
use tateyama.Endpoint.WireWriter.View.{
  replay, replay_annex, replay_all, IsGood, sink_write-nil, replay-annex_write, replay-annex_flush,
}

-- all annexes are full but the last one
abbrev pub LastOpen : List Annex → Type 0
LastOpen [] = ⊥
LastOpen (a ∷ []) = a.full ≡ false
LastOpen (a ∷ b ∷ q) = (a.full ≡ true) × LastOpen (b ∷ q)

-- the bytes in the last annex that belong to no finished chunk
abbrev pub unflushed : List Annex → ℕ
unflushed [] = 0
unflushed (a ∷ []) = a.chunk_size
unflushed (a ∷ b ∷ q) = unflushed (b ∷ q)

pub replay-annex : (size : ℕ) (s : Sink) → replay_annex (annex size) s ≡ s
unfolding annex replay
replay-annex size s = sink_write-nil s

room_of_annex :
    (size : ℕ) (from : Str) → length from ≤ size → is_room (annex size) (length from) ≡ true
unfolding is_room annex
room_of_annex size from h = ground arith

-- what `write` makes of the annexes
pub record Extends (from : Str) (q q' : List Annex) : Type 0 where
  pub good : All IsGood q'
  pub last : LastOpen q'
  pub more : 0 < unflushed q'
  pub replayed : (s : Sink) → replay_all q' s ≡ sink_write from (replay_all q s)

new_annex :
    (size : ℕ) (from : Str) (s : Sink)
    → replay_annex (annex_write from (annex size)) s ≡ sink_write from s
new_annex size from s =
    replay-annex_write (annex size) from s (annex-IsGood size)
    ∙ ap (sink_write from) (replay-annex size s)

annex_write-more : (a : Annex) (from : Str) → 0 < length from → 0 < (annex_write from a).chunk_size
unfolding annex_write
annex_write-more a from h = omega (arith, h)

annex_write-full : (a : Annex) (from : Str) → (annex_write from a).full ≡ a.full
unfolding annex_write
annex_write-full a from = refl

annex-open : (size : ℕ) → (annex size).full ≡ false
unfolding annex
annex-open size = refl

within-Extends :
    (size : ℕ) (from : Str) (a : Annex)
    → 0 < length from
    → IsGood a
    → a.full ≡ false
    → is_room a (length from) ≡ true
    → Extends from (a ∷ []) (annex_write from a ∷ [])
unfolding replay_all
within-Extends size from a pos g o r = record {
  good = (annex_write-IsGood a from r g, tt);
  last = annex_write-full a from ∙ o;
  more = annex_write-more a from pos;
  replayed = λ s. replay-annex_write a from s g;
}

beyond-Extends :
    (size : ℕ) (from : Str) (a : Annex)
    → 0 < length from
    → length from ≤ size
    → IsGood a
    → Extends from (a ∷ []) (set_full a ∷ annex_write from (annex size) ∷ [])
unfolding replay_all
beyond-Extends size from a pos fits g = record {
  good = (
    set_full-IsGood a g,
    (annex_write-IsGood (annex size) from (room_of_annex size from fits) (annex-IsGood size), tt),
  );
  last = (refl, annex_write-full (annex size) from ∙ annex-open size);
  more = annex_write-more (annex size) from pos;
  replayed = λ s. new_annex size from (replay_annex a s);
}

-- a full annex in front changes nothing
behind :
    (from : Str) (a b : Annex) (q q' : List Annex)
    → IsGood a
    → a.full ≡ true
    → Extends from (b ∷ q) q'
    → Extends from (a ∷ b ∷ q) (a ∷ q')
unfolding replay_all
behind from a b q [] g f e = absurd e.last
behind from a b q (c ∷ q') g f e = record {
  good = (g, e.good);
  last = (f, e.last);
  more = e.more;
  replayed = λ s. e.replayed (replay_annex a s);
}

pub extend_queue-Extends :
    (size : ℕ) (from : Str) (q : List Annex)
    → 0 < length from
    → length from ≤ size
    → All IsGood q
    → LastOpen q
    → Extends from q (extend_queue size from q)
unfolding extend_queue
extend_queue-Extends size from [] pos fits g l = absurd l
extend_queue-Extends size from (a ∷ []) pos fits (g, gs) l =
    elim (Bool-cases (is_room a (length from))) [
      | inl r ↦ rw r (within-Extends size from a pos g l r)
      | inr r ↦ rw r (beyond-Extends size from a pos fits g)
    ]
extend_queue-Extends size from (a ∷ b ∷ q) pos fits (g, gs) l =
    behind from a b q (extend_queue size from (b ∷ q)) g l.0
      (extend_queue-Extends size from (b ∷ q) pos fits gs l.1)

-- what `flush` makes of the annexes
pub record Flushes (q q' : List Annex) : Type 0 where
  pub good : All IsGood q'
  pub last : LastOpen q'
  pub none_left : unflushed q' ≡ 0
  pub replayed : 0 < unflushed q → (s : Sink) → replay_all q' s ≡ sink_flush (replay_all q s)
  pub unchanged : unflushed q ≡ 0 → (s : Sink) → replay_all q' s ≡ replay_all q s

annex_flush-same :
    (a : Annex) (s : Sink) → a.chunk_size ≡ 0 → replay_annex (annex_flush a) s ≡ replay_annex a s
unfolding annex_flush
annex_flush-same a s z = ground arith

annex_flush-full : (a : Annex) → (annex_flush a).full ≡ a.full
unfolding annex_flush
annex_flush-full a = refl

annex_flush-none : (a : Annex) → (annex_flush a).chunk_size ≡ 0
unfolding annex_flush
annex_flush-none a = refl

flush_behind :
    (a b : Annex) (q q' : List Annex)
    → IsGood a
    → a.full ≡ true
    → Flushes (b ∷ q) q'
    → Flushes (a ∷ b ∷ q) (a ∷ q')
unfolding replay_all
flush_behind a b q [] g f e = absurd e.last
flush_behind a b q (c ∷ q') g f e = record {
  good = (g, e.good);
  last = (f, e.last);
  none_left = e.none_left;
  replayed = λ pos s. e.replayed pos (replay_annex a s);
  unchanged = λ z s. e.unchanged z (replay_annex a s);
}

pub flush_last-Flushes : (q : List Annex) → All IsGood q → LastOpen q → Flushes q (flush_last q)
unfolding flush_last replay_all
flush_last-Flushes [] g l = absurd l
flush_last-Flushes (a ∷ []) (g, gs) l = record {
  good = (annex_flush-IsGood a g, tt);
  last = annex_flush-full a ∙ l;
  none_left = annex_flush-none a;
  replayed = λ pos s. replay-annex_flush a s g pos;
  unchanged = λ z s. annex_flush-same a s z;
}
flush_last-Flushes (a ∷ b ∷ q) (g, gs) l =
    flush_behind a b q (flush_last (b ∷ q)) g l.0 (flush_last-Flushes (b ∷ q) gs l.1)
