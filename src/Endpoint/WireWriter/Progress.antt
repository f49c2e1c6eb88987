-- ===== src/Endpoint/WireWriter/Progress.antt =====
-- After the release, each round of the thread brings the transfer of the front annex further.
use mathlib.Core.Path.{subst}
use tateyama.Base.{
  ℕ, ◌+◌, ◌≡◌, ◌⊎◌, refl, sym, ap, ◌∙◌, true, false, List, [], ◌∷◌, length, arith, Bool-cases, inl,
  inr,
}
use tateyama.Endpoint.WireWriter.{
  Sink, Annex, exhausted, transfer, transfer_rest, Transfer, goes_on, ends,
}
use tateyama.Endpoint.WireWriter.Moving.{
  zero_or_more, transfer_at_end, transfer_at_rest, transfer_at_chunk, open_chunk, rest_released,
  rest_of_full,
}

pub data Progresses (a : Annex) : Transfer → Annex → Type 0 where
  went : (a' : Annex) → length a.chunks ≡ length a'.chunks + 1 → Progresses a goes_on a'
  ended : (a' : Annex) → Progresses a (ends true) a'

abbrev pub Progressed : Annex → Transfer × Annex × Sink → Type 0
Progressed a (t, a', s') = Progresses a t a'

rest-Progressed :
    (a : Annex) (s : Sink)
    → s.closed ≡ false
    → (a.full ≡ true) ⊎ (a.chunk_size ≡ 0)
    → Progressed a (transfer_rest true a s)
rest-Progressed a s o f = elim (zero_or_more a.chunk_size) [
  | inl z ↦ subst (Progressed a) (sym (rest_released a s z)) (ended a)
  | inr pos ↦ (elim f [
    | inl full ↦ subst (Progressed a) (sym (rest_of_full true a s o full pos)) (ended _)
    | inr z ↦ absurd (omega (arith, z, pos))
  ])
]

chunks-Progressed :
    (a : Annex) (s : Sink) (ns : List ℕ)
    → s.closed ≡ false
    → (a.full ≡ true) ⊎ (a.chunk_size ≡ 0)
    → exhausted a ≡ false
    → a.chunks ≡ ns
    → Progressed a (transfer true a s)
chunks-Progressed a s [] o f x e =
    subst (Progressed a) (sym (transfer_at_rest true a s x e)) (rest-Progressed a s o f)
chunks-Progressed a s (size ∷ rest) o f x e =
    subst (Progressed a)
      (sym (
        transfer_at_chunk true a s size rest x e
        ∙ open_chunk size (record a { chunks = rest }) s o))
      (went _ (omega (arith, ap length e)))

pub transfer-Progressed :
    (a : Annex) (s : Sink)
    → s.closed ≡ false
    → (a.full ≡ true) ⊎ (a.chunk_size ≡ 0)
    → Progressed a (transfer true a s)
transfer-Progressed a s o f = elim (Bool-cases (exhausted a)) [
  | inl x ↦ subst (Progressed a) (sym (transfer_at_end true a s x)) (ended a)
  | inr x ↦ chunks-Progressed a s a.chunks o f x refl
]
