-- ===== src/Endpoint/ResponseWriter/Order.antt =====
-- The responses keep their order on the way to the wire.
use mathlib.Core.Path.{subst}
use tateyama.Base.{
  ◌⊎◌, ◌≡◌, refl, sym, ap, ap₂, ◌∙◌, Bool, true, false, ◌||◌, Option, none, some, List, [], ◌∷◌,
  ◌++◌, append_assoc, append-nil, arith, Bool-cases, inl, inr,
}
use tateyama.Base.Text.{Str}
use tateyama.Wire.Header.{ResponseHeader}
use tateyama.Endpoint.ResponseWriter.{
  Container, container, Response, response_of, on_wire, write, thread_step, thread_turn,
  take_response,
}

pub data Step : Type 0 where
  writes : Bool → Bool → Str → ResponseHeader → Step
  thread : Step

unfoldable pub step : Step → Container → Container
unfolding write thread_step
step (writes blockable writable from header) c = write blockable writable from header c
step thread c = thread_step c

unfoldable pub run_steps : List Step → Container → Container
unfolding step
run_steps [] c = c
run_steps (s ∷ ss) c = run_steps ss (step s c)

abbrev pub written : List Step → List Response
written [] = []
written (writes blockable writable from header ∷ ss) = response_of from header ∷ written ss
written (thread ∷ ss) = written ss

abbrev pub in_hand : Option Response → List Response
in_hand none = []
in_hand (some r) = r ∷ []

-- all responses, the ones on the wire first
abbrev pub pipeline : Container → List Response
pipeline c = c.wire ++ (in_hand c.taken ++ c.responses)

record Quiet (c : Container) : Type 0 where
  opened : c.closed ≡ false
  nothing_taken : c.thread_active ≡ false → c.taken ≡ none
  nothing_queued : c.thread_active ≡ false → c.responses ≡ []

-- What a step of the container does to the responses on their way.
record Moves (c : Container) (more : List Response) (c' : Container) : Type 0 where
  quiet : Quiet c'
  ordered : pipeline c' ≡ pipeline c ++ more

take_response-Moves :
    (c : Container) (rs : List Response)
    → c.responses ≡ rs
    → c.taken ≡ none
    → c.thread_active ≡ true
    → c.closed ≡ false
    → Moves c [] (take_response rs c)
take_response-Moves c [] e t a o = record {
  quiet = record { opened = o; nothing_taken = λ p. t; nothing_queued = λ p. e };
  ordered = sym (append-nil (pipeline c));
}
take_response-Moves c (r ∷ rs) e t a o = record {
  quiet = record {
    opened = o;
    nothing_taken = λ p. absurd (cc);
    nothing_queued = λ p. absurd (cc);
  };
  ordered =
      ap₂ (λ (h : Option Response) (l : List Response). c.wire ++ (in_hand h ++ l)) (sym t) (sym e)
      ∙ sym (append-nil (pipeline c));
}

on_wire_open :
    (r : Response) (c : Container)
    → c.closed ≡ false
    → on_wire r c ≡ record c { wire = c.wire ++ (r ∷ []) }
on_wire_open r c o = ground arith

thread_turn-Moves :
    (c : Container) (t : Option Response)
    → c.taken ≡ t
    → c.thread_active ≡ true
    → c.closed ≡ false
    → Moves c [] (thread_turn t c)
thread_turn-Moves c none e a o = take_response-Moves c c.responses refl e a o
thread_turn-Moves c (some r) e a o =
    subst (Moves c []) (sym (on_wire_open r (record c { taken = none }) o)) (record {
      quiet = record { opened = o; nothing_taken = λ p. refl; nothing_queued = λ p. absurd (cc) };
      ordered =
          (append_assoc c.wire (r ∷ []) c.responses
            ∙ ap (λ (h : Option Response). c.wire ++ (in_hand h ++ c.responses)) (sym e))
          ∙ sym (append-nil (pipeline c));
    })

queued :
    (c : Container) (r : Response)
    → c.wire ++ (in_hand c.taken ++ (c.responses ++ (r ∷ []))) ≡ pipeline c ++ (r ∷ [])
queued c r =
    ap (λ (l : List Response). c.wire ++ l)
      (sym (append_assoc (in_hand c.taken) c.responses (r ∷ [])))
    ∙ sym (append_assoc c.wire (in_hand c.taken ++ c.responses) (r ∷ []))

write_active :
    (b u : Bool) (from : Str) (header : ResponseHeader) (c : Container)
    → c.thread_active ≡ true
    → write b u from header c
      ≡ record c { responses = c.responses ++ (response_of from header ∷ []) }
unfolding write
write_active b u from header c a = ground arith

write_direct :
    (b u : Bool) (from : Str) (header : ResponseHeader) (c : Container)
    → c.thread_active ≡ false
    → (b || u) ≡ true
    → c.closed ≡ false
    → write b u from header c ≡ record c { wire = c.wire ++ (response_of from header ∷ []) }
unfolding write
write_direct b u from header c a w o = ground arith

write_queued :
    (b u : Bool) (from : Str) (header : ResponseHeader) (c : Container)
    → c.thread_active ≡ false
    → (b || u) ≡ false
    → write b u from header c
      ≡ record c { responses = c.responses ++ (response_of from header ∷ []); thread_active = true }
unfolding write
write_queued b u from header c a w = ground arith

active-Moves :
    (r : Response) (c : Container)
    → c.thread_active ≡ true
    → c.closed ≡ false
    → Moves c (r ∷ []) (record c { responses = c.responses ++ (r ∷ []) })
active-Moves r c a o = record {
  quiet = record {
    opened = o;
    nothing_taken = λ p. absurd (cc);
    nothing_queued = λ p. absurd (cc);
  };
  ordered = queued c r;
}

direct-Moves :
    (r : Response) (c : Container)
    → Quiet c
    → c.thread_active ≡ false
    → Moves c (r ∷ []) (record c { wire = c.wire ++ (r ∷ []) })
direct-Moves r c q a = record {
  quiet = record {
    opened = q.opened;
    nothing_taken = q.nothing_taken;
    nothing_queued = q.nothing_queued;
  };
  ordered =
      ap₂ (λ (h : Option Response) (l : List Response). (c.wire ++ (r ∷ [])) ++ (in_hand h ++ l))
        (q.nothing_taken a) (q.nothing_queued a)
      ∙ (append-nil (c.wire ++ (r ∷ []))
          ∙ (ap (λ (l : List Response). l ++ (r ∷ [])) (sym (append-nil c.wire))
              ∙ ap₂
                  (λ (h : Option Response) (l : List Response).
                    (c.wire ++ (in_hand h ++ l)) ++ (r ∷ []))
                  (sym (q.nothing_taken a)) (sym (q.nothing_queued a))));
}

queued-Moves :
    (r : Response) (c : Container)
    → c.closed ≡ false
    → Moves c (r ∷ []) (record c { responses = c.responses ++ (r ∷ []); thread_active = true })
queued-Moves r c o = record {
  quiet = record {
    opened = o;
    nothing_taken = λ p. absurd (cc);
    nothing_queued = λ p. absurd (cc);
  };
  ordered = queued c r;
}

write-Moves :
    (b u : Bool) (from : Str) (header : ResponseHeader) (c : Container)
    → Quiet c
    → Moves c (response_of from header ∷ []) (write b u from header c)
write-Moves b u from header c q = elim (Bool-cases c.thread_active) [
  | inl a ↦
      subst (Moves c (response_of from header ∷ [])) (sym (write_active b u from header c a))
        (active-Moves (response_of from header) c a q.opened)
  | inr a ↦ (elim (Bool-cases (b || u)) [
    | inl w ↦
        subst (Moves c (response_of from header ∷ []))
          (sym (write_direct b u from header c a w q.opened))
          (direct-Moves (response_of from header) c q a)
    | inr w ↦
        subst (Moves c (response_of from header ∷ [])) (sym (write_queued b u from header c a w))
          (queued-Moves (response_of from header) c q.opened)
  ])
]

still-Moves : (c : Container) → Quiet c → Moves c [] c
still-Moves c q = record { quiet = q; ordered = sym (append-nil (pipeline c)) }

thread_step-Moves : (c : Container) → Quiet c → Moves c [] (thread_step c)
unfolding thread_step
thread_step-Moves c q = elim (Bool-cases c.thread_active) [
  | inl a ↦
      (let e : thread_step c ≡ thread_turn c.taken c = ground arith in
        subst (Moves c []) (sym e) (thread_turn-Moves c c.taken refl a q.opened))
  | inr a ↦
      (let e : thread_step c ≡ c = ground arith in subst (Moves c []) (sym e) (still-Moves c q))
]

step-Moves : (s : Step) (c : Container) → Quiet c → Moves c (written (s ∷ [])) (step s c)
unfolding step
step-Moves (writes b u from header) c q = write-Moves b u from header c q
step-Moves thread c q = thread_step-Moves c q

written-cons : (s : Step) (ss : List Step) → written (s ∷ ss) ≡ written (s ∷ []) ++ written ss
written-cons (writes b u from header) ss = refl
written-cons thread ss = refl

run_steps-Moves : (ss : List Step) (c : Container) → Quiet c → Moves c (written ss) (run_steps ss c)
unfolding run_steps
run_steps-Moves [] c q = still-Moves c q
run_steps-Moves (s ∷ ss) c q =
    let m = step-Moves s c q in
    let n = run_steps-Moves ss (step s c) m.quiet in
    record {
      quiet = n.quiet;
      ordered =
          (n.ordered ∙ ap (λ (l : List Response). l ++ written ss) m.ordered)
          ∙ (append_assoc (pipeline c) (written (s ∷ [])) (written ss)
              ∙ ap (λ (l : List Response). pipeline c ++ l) (sym (written-cons s ss)));
    }

-- Where the calls of `write` come one after the other, with half rounds of the thread between them
-- wherever they fall, and the wire stays open, the responses on the wire, the one that the thread has
-- taken and those in the queue are, in this order, the responses that were written, each with its
-- header, in the order of the calls; and where the thread is not active, all of them are on the wire.
pub run_steps-written :
    (ss : List Step)
    → (pipeline (run_steps ss container) ≡ written ss)
      × (((run_steps ss container).thread_active ≡ true)
          ⊎ ((run_steps ss container).wire ≡ written ss))
run_steps-written ss =
    let m =
      run_steps-Moves ss container
        (record { opened = refl; nothing_taken = λ p. refl; nothing_queued = λ p. refl }) in
    let c = run_steps ss container in
    (
      m.ordered,
      elim (Bool-cases c.thread_active) [
        | inl a ↦ inl a
        | inr a ↦ inr (
            (sym (append-nil c.wire)
              ∙ ap₂ (λ (h : Option Response) (l : List Response). c.wire ++ (in_hand h ++ l))
                  (sym (m.quiet.nothing_taken a)) (sym (m.quiet.nothing_queued a)))
            ∙ m.ordered)
      ],
    )
