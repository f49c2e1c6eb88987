-- ===== src/Endpoint/WireWriter/Rounds.antt =====
-- The rounds of the thread change nothing of what the wire comes to hold.
use mathlib.Core.Path.{subst}
use tateyama.Base.{
  ◌≡◌, refl, sym, ap, ap₂, ◌∙◌, true, false, List, [], ◌∷◌, arith, Bool-cases, inl, inr, All,
}
use tateyama.Endpoint.WireWriter.{
  Sink, Annex, Writer, thread_round, thread_work, after_transfer, Transfer, waits, goes_on, ends,
}
use tateyama.Endpoint.WireWriter.Moving.{Moves, waited, moved, done, transfer-Moved}
use tateyama.Endpoint.WireWriter.Queue.{LastOpen, unflushed}
use tateyama.Endpoint.WireWriter.View.{replay_annex, replay_all, IsGood}
use tateyama.Endpoint.WireWriter.Steps.{view, Invariant, rounds, promised, Keeps, promise_eq}

pub unflushed_front :
    (a a' : Annex) (q : List Annex)
    → a'.chunk_size ≡ a.chunk_size
    → unflushed (a' ∷ q) ≡ unflushed (a ∷ q)
unflushed_front a a' [] e = e
unflushed_front a a' (b ∷ q) e = refl

pub open_front :
    (a a' : Annex) (q : List Annex) → a'.full ≡ a.full → LastOpen (a ∷ q) → LastOpen (a' ∷ q)
open_front a a' [] e l = e ∙ l
open_front a a' (b ∷ q) e l = (e ∙ l.0, l.1)

open_rest : (a : Annex) (q : List Annex) → a.full ≡ true → LastOpen (a ∷ q) → LastOpen q
open_rest a [] e l = absurd (cc)
open_rest a (b ∷ q) e l = l.1

unflushed_rest : (a : Annex) (q : List Annex) → LastOpen q → unflushed q ≡ unflushed (a ∷ q)
unflushed_rest a [] l = absurd l
unflushed_rest a (b ∷ q) l = refl

still-Keeps : (w : Writer) → Invariant w → Keeps rounds w w
unfolding promised
still-Keeps w v = record { invariant = v; kept = refl; buffer_size = refl }

-- a writer whose annexes and wire have changed, and come to the same
same-Keeps :
    (w : Writer) (q : List Annex) (s : Sink)
    → Invariant w
    → w.annex_mode ≡ true
    → All IsGood q
    → s.closed ≡ false
    → LastOpen q
    → unflushed q ≡ unflushed w.queue
    → replay_all q s ≡ view w
    → Keeps rounds w (record w { queue = q; sink = s })
unfolding promised
same-Keeps w q s v m g o l u e = record {
  invariant = record {
    good = g;
    not_closed = o;
    not_released = v.not_released;
    direct = λ d. absurd (cc);
    last = λ m'. l;
    unthreaded = v.unthreaded;
    threaded = v.threaded;
    settled = λ m' z. ap (λ (t : Sink). t.current) e ∙ v.settled m (sym u ∙ z);
  };
  kept = promise_eq e refl;
  buffer_size = refl;
}

in_annex_mode :
    (w : Writer) (a : Annex) (q : List Annex) → Invariant w → w.queue ≡ a ∷ q → w.annex_mode ≡ true
in_annex_mode w a q v e = elim (Bool-cases w.annex_mode) [
  | inl m ↦ m
  | inr m ↦ (let z = v.direct m in absurd (cc))
]

pub view_at :
    (w : Writer) (a : Annex) (q : List Annex)
    → w.queue ≡ a ∷ q
    → replay_all q (replay_annex a w.sink) ≡ view w
unfolding replay_all
view_at w a q e = ap (λ (t : List Annex). replay_all t w.sink) (sym e)

after_transfer-Keeps :
    (w : Writer) (a : Annex) (q : List Annex) (t : Transfer) (a' : Annex) (s' : Sink)
    → Invariant w
    → w.queue ≡ a ∷ q
    → Moves w.released a w.sink t a' s'
    → Keeps rounds w (after_transfer w q t a' s')
unfolding replay_all
after_transfer-Keeps w a q waits a' s' v e waited = still-Keeps w v
after_transfer-Keeps w a q goes_on a' s' v e (moved _ _ g r o c f) =
    let m = in_annex_mode w a q v e in
    let gs : All IsGood (a ∷ q) = subst (All IsGood) e v.good in
    let l : LastOpen (a ∷ q) = subst LastOpen e (v.last m) in
    same-Keeps w (a' ∷ q) s' v m (g, gs.1) o (open_front a a' q f l)
      (unflushed_front a a' q c ∙ ap unflushed (sym e)) (ap (replay_all q) r ∙ view_at w a q e)
after_transfer-Keeps w a q (ends true) a' s' v e (done _ _ r o (inl released)) =
    let no = v.not_released in absurd (cc)
after_transfer-Keeps w a q (ends true) a' s' v e (done _ _ r o (inr f)) =
    let m = in_annex_mode w a q v e in
    let gs : All IsGood (a ∷ q) = subst (All IsGood) e v.good in
    let l : LastOpen q = open_rest a q f (subst LastOpen e (v.last m)) in
    same-Keeps w q s' v m gs.1 o l (unflushed_rest a q l ∙ ap unflushed (sym e))
      (ap (replay_all q) r ∙ view_at w a q e)
after_transfer-Keeps w a q (ends false) a' s' v e m = elim m [ ]

idle_thread : (w : Writer) → w.released ≡ false → thread_work w [] ≡ w
unfolding thread_work
idle_thread w r = ground arith

pub active_round : (w : Writer) → w.thread_active ≡ true → thread_round w ≡ thread_work w w.queue
unfolding thread_round
active_round w t = ground arith

pub inactive_round : (w : Writer) → w.thread_active ≡ false → thread_round w ≡ w
unfolding thread_round
inactive_round w t = ground arith

thread_work-Keeps :
    (w : Writer) (q : List Annex) → Invariant w → w.queue ≡ q → Keeps rounds w (thread_work w q)
unfolding thread_work
thread_work-Keeps w [] v e =
    subst (Keeps rounds w) (sym (idle_thread w v.not_released)) (still-Keeps w v)
thread_work-Keeps w (a ∷ q) v e =
    let gs : All IsGood (a ∷ q) = subst (All IsGood) e v.good in
    after_transfer-Keeps w a q _ _ _ v e (transfer-Moved w.released a w.sink gs.0 v.not_closed)

pub round-Keeps : (w : Writer) → Invariant w → Keeps rounds w (thread_round w)
unfolding thread_round
round-Keeps w v = elim (Bool-cases w.thread_active) [
  | inl t ↦ subst (Keeps rounds w) (sym (active_round w t)) (thread_work-Keeps w w.queue v refl)
  | inr t ↦ subst (Keeps rounds w) (sym (inactive_round w t)) (still-Keeps w v)
]

-- the writer, also after its release
pub record Draining (w : Writer) : Type 0 where
  pub good : All IsGood w.queue
  pub not_closed : w.sink.closed ≡ false

abbrev pub Drains : Writer → Writer → Type 0
Drains w w' = Draining w' × (view w' ≡ view w)

after_transfer-Drains :
    (w : Writer) (a : Annex) (q : List Annex) (t : Transfer) (a' : Annex) (s' : Sink)
    → Draining w
    → w.queue ≡ a ∷ q
    → Moves w.released a w.sink t a' s'
    → Drains w (after_transfer w q t a' s')
unfolding replay_all
after_transfer-Drains w a q waits a' s' v e waited = (v, refl)
after_transfer-Drains w a q goes_on a' s' v e (moved _ _ g r o c f) =
    let gs : All IsGood (a ∷ q) = subst (All IsGood) e v.good in
    (record { good = (g, gs.1); not_closed = o }, ap (replay_all q) r ∙ view_at w a q e)
after_transfer-Drains w a q (ends true) a' s' v e (done _ _ r o _) =
    let gs : All IsGood (a ∷ q) = subst (All IsGood) e v.good in
    (record { good = gs.1; not_closed = o }, ap (replay_all q) r ∙ view_at w a q e)
after_transfer-Drains w a q (ends false) a' s' v e m = elim m [ ]

pub same_annexes-Drains :
    (w w' : Writer) → Draining w → w'.queue ≡ w.queue → w'.sink ≡ w.sink → Drains w w'
same_annexes-Drains w w' v q s = (
  record {
    good = subst (All IsGood) (sym q) v.good;
    not_closed = ap (λ (s : Sink). s.closed) s ∙ v.not_closed;
  },
  ap₂ replay_all q s,
)

thread_work-Drains :
    (w : Writer) (q : List Annex) → Draining w → w.queue ≡ q → Drains w (thread_work w q)
unfolding thread_work
thread_work-Drains w [] v e = same_annexes-Drains w _ v (ground arith) (ground arith)
thread_work-Drains w (a ∷ q) v e =
    let gs : All IsGood (a ∷ q) = subst (All IsGood) e v.good in
    after_transfer-Drains w a q _ _ _ v e (transfer-Moved w.released a w.sink gs.0 v.not_closed)

pub round-Drains : (w : Writer) → Draining w → Drains w (thread_round w)
round-Drains w v = elim (Bool-cases w.thread_active) [
  | inl t ↦ subst (Drains w) (sym (active_round w t)) (thread_work-Drains w w.queue v refl)
  | inr t ↦ subst (Drains w) (sym (inactive_round w t)) (v, refl)
]
