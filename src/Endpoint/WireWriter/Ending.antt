-- ===== src/Endpoint/WireWriter/Ending.antt =====
-- A released writer all of whose bytes are in finished chunks: each round of the thread brings it
-- nearer to its end.
use mathlib.Core.Path.{subst}
use tateyama.Base.{
  ℕ, zero, suc, ◌+◌, ◌≤◌, ◌<◌, ◌≡◌, ◌⊎◌, refl, sym, ap, ◌∙◌, Bool, true, false, List, [], ◌∷◌,
  length, arith, inl, inr, All,
}
use tateyama.Endpoint.WireWriter.{
  Sink, Annex, Writer, thread_round, thread_work, after_transfer, transfer, Transfer, waits,
  goes_on, ends,
}
use tateyama.Endpoint.WireWriter.Moving.{Moves, moved, done, transfer-Moved}
use tateyama.Endpoint.WireWriter.Progress.{Progresses, went, transfer-Progressed}
use tateyama.Endpoint.WireWriter.Queue.{LastOpen, unflushed}
use tateyama.Endpoint.WireWriter.Steps.{view}
use tateyama.Endpoint.WireWriter.Rounds.{
  active_round, inactive_round, view_at, open_front, unflushed_front,
}
use tateyama.Endpoint.WireWriter.Refinement.{drain}
use tateyama.Endpoint.WireWriter.View.{replay_all, IsGood}

-- the rounds that the annexes need at most
abbrev pub work : List Annex → ℕ
work [] = 0
work (a ∷ q) = length a.chunks + 1 + work q

-- the annexes of a released writer, all of whose bytes are in finished chunks
abbrev pub Flushed : List Annex → Type 0
Flushed [] = Unit
Flushed (a ∷ q) = LastOpen (a ∷ q) × (unflushed (a ∷ q) ≡ 0)

-- the released writer on its way, with the records that are to come
pub record Ending (target : Sink) (w : Writer) : Type 0 where
  pub good : All IsGood w.queue
  pub not_closed : w.sink.closed ≡ false
  pub flushed : Flushed w.queue
  pub released : w.released ≡ true
  pub active : w.thread_active ≡ true
  pub same : view w ≡ target

pub record Ended (target : Sink) (w : Writer) : Type 0 where
  pub empty : w.queue ≡ []
  pub completed : w.completed ≡ true
  pub inactive : w.thread_active ≡ false
  pub delivered : w.sink ≡ target

can_end : (a : Annex) (q : List Annex) → Flushed (a ∷ q) → (a.full ≡ true) ⊎ (a.chunk_size ≡ 0)
can_end a [] (l, z) = inr z
can_end a (b ∷ q) (l, z) = inl l.0

rest-Flushed : (a : Annex) (q : List Annex) → Flushed (a ∷ q) → Flushed q
rest-Flushed a [] f = tt
rest-Flushed a (b ∷ q) (l, z) = (l.1, z)

front-Flushed :
    (a a' : Annex) (q : List Annex)
    → a'.chunk_size ≡ a.chunk_size
    → a'.full ≡ a.full
    → Flushed (a ∷ q)
    → Flushed (a' ∷ q)
front-Flushed a a' q c f (l, z) = (open_front a a' q f l, unflushed_front a a' q c ∙ z)

-- a round either ends the annex in front or takes a chunk from it
abbrev Nearer : Sink → ℕ → Writer → Type 0
Nearer target n w = Ending target w × (work w.queue + 1 ≤ n)

after_transfer-Nearer :
    (target : Sink) (w : Writer) (a : Annex) (q : List Annex) (t : Transfer) (a' : Annex)
    (s' : Sink)
    → Ending target w
    → w.queue ≡ a ∷ q
    → Moves w.released a w.sink t a' s'
    → Progresses a t a'
    → Nearer target (work (a ∷ q)) (after_transfer w q t a' s')
unfolding replay_all
after_transfer-Nearer target w a q waits a' s' v e m p = elim p [ ]
after_transfer-Nearer target w a q goes_on a' s' v e (moved _ _ g r o c f) (went _ n) =
    let gs : All IsGood (a ∷ q) = subst (All IsGood) e v.good in
    (
      record {
        good = (g, gs.1);
        not_closed = o;
        flushed = front-Flushed a a' q c f (subst Flushed e v.flushed);
        released = v.released;
        active = v.active;
        same = (ap (replay_all q) r ∙ view_at w a q e) ∙ v.same;
      },
      omega (arith, n),
    )
after_transfer-Nearer target w a q (ends true) a' s' v e (done _ _ r o _) p =
    let gs : All IsGood (a ∷ q) = subst (All IsGood) e v.good in
    (
      record {
        good = gs.1;
        not_closed = o;
        flushed = rest-Flushed a q (subst Flushed e v.flushed);
        released = v.released;
        active = v.active;
        same = (ap (replay_all q) r ∙ view_at w a q e) ∙ v.same;
      },
      omega arith,
    )
after_transfer-Nearer target w a q (ends false) a' s' v e m p = elim p [ ]

work-Nearer :
    (target : Sink) (w : Writer) (a : Annex) (q : List Annex)
    → Ending target w
    → w.queue ≡ a ∷ q
    → Nearer target (work (a ∷ q)) (thread_work w (a ∷ q))
unfolding thread_work
work-Nearer target w a q v e =
    let gs : All IsGood (a ∷ q) = subst (All IsGood) e v.good in
    let f = can_end a q (subst Flushed e v.flushed) in
    after_transfer-Nearer target w a q _ _ _ v e
      (transfer-Moved w.released a w.sink gs.0 v.not_closed)
      (subst (λ (b : Bool). Progresses a (transfer b a w.sink).0 (transfer b a w.sink).1)
        (sym v.released) (transfer-Progressed a w.sink v.not_closed f))

ending_work :
    (w : Writer)
    → w.released ≡ true
    → thread_work w [] ≡ record w { completed = true; thread_active = false }
unfolding thread_work
ending_work w r = ground arith

last_round :
    (target : Sink) (w : Writer) → Ending target w → w.queue ≡ [] → Ended target (thread_work w [])
unfolding replay_all
last_round target w v e = subst (Ended target) (sym (ending_work w v.released)) (record {
  empty = e;
  completed = refl;
  inactive = refl;
  delivered = ap (λ (q : List Annex). replay_all q w.sink) (sym e) ∙ v.same;
})

active_work :
    (w : Writer) (q : List Annex)
    → w.thread_active ≡ true
    → w.queue ≡ q
    → thread_round w ≡ thread_work w q
active_work w q t e = active_round w t ∙ ap (thread_work w) e

pub idle-Ended : (n : ℕ) (target : Sink) (w : Writer) → Ended target w → Ended target (drain n w)
unfolding drain
idle-Ended zero target w v = v
idle-Ended (suc n) target w v =
    idle-Ended n target (thread_round w)
      (subst (Ended target) (sym (inactive_round w v.inactive)) v)

pub drain-Ended :
    (n : ℕ) (target : Sink) (w : Writer) (q : List Annex)
    → w.queue ≡ q
    → Ending target w
    → work q < n
    → Ended target (drain n w)
unfolding drain
drain-Ended zero target w q e v h = absurd (omega (arith, h))
drain-Ended (suc n) target w [] e v h =
    idle-Ended n target (thread_round w)
      (subst (Ended target) (sym (active_work w [] v.active e)) (last_round target w v e))
drain-Ended (suc n) target w (a ∷ q) e v h =
    let (v', k) =
      subst (Nearer target (work (a ∷ q))) (sym (active_work w (a ∷ q) v.active e))
        (work-Nearer target w a q v e) in
    drain-Ended n target (thread_round w) (thread_round w).queue refl v' (omega (arith, h, k))
