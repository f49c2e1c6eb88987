-- ===== src/Wire/Transfer/Chunking.antt =====
-- The chunks in which a message passes through a ring of a given capacity.
use tateyama.Base.{
  ℕ, zero, suc, ◌≤◌, ◌<◌, ◌≡◌, refl, sym, ap, ◌∙◌, inl, inr, List, [], ◌∷◌, ◌++◌, arith, length,
  take, drop, length-drop, append_assoc, take-all, drop-all, Bool-cases, ltb, take-append-drop,
}
use tateyama.Wire.SimpleWire.{min_size}

abbrev pub flatten {ℓ} : {A : Type ℓ} → List (List A) → List A
flatten [] = []
flatten (xs ∷ xss) = xs ++ flatten xss

pub flatten-append {ℓ} :
    {A : Type ℓ} (xss yss : List (List A)) → flatten (xss ++ yss) ≡ flatten xss ++ flatten yss
flatten-append [] yss = refl
flatten-append (xs ∷ xss) yss =
    ap (◌++◌ xs) (flatten-append xss yss) ∙ sym (append_assoc xs (flatten xss) (flatten yss))

-- Lists that start with parts of the same length have the same parts.
pub append_injective {ℓ} :
    {A : Type ℓ} (xs ys : List A) {us vs : List A}
    → length xs ≡ length ys
    → xs ++ us ≡ ys ++ vs
    → (xs ≡ ys) × (us ≡ vs)
append_injective [] [] n e = (refl, e)
append_injective [] (y ∷ ys) n e = absurd (omega arith)
append_injective (x ∷ xs) [] n e = absurd (omega arith)
append_injective (x ∷ xs) (y ∷ ys) {us} {vs} n e =
    let (p, q) = append_injective xs ys {us = us} {vs = vs} (omega arith) (cc) in (cc, q)

unfoldable pub chunks_from : ℕ → ℕ → List ℕ → List (List ℕ)
chunks_from capacity zero bs = []
chunks_from capacity (suc n) [] = []
chunks_from capacity (suc n) (b ∷ bs) =
    take capacity (b ∷ bs) ∷ chunks_from capacity n (drop capacity (b ∷ bs))

-- `bs` cut into pieces of `capacity` bytes, and a last one of what is left
unfoldable pub chunks : ℕ → List ℕ → List (List ℕ)
chunks capacity bs = chunks_from capacity (length bs) bs

chunks_from_enough :
    (capacity n j : ℕ) (bs : List ℕ)
    → 0 < capacity
    → length bs ≤ n
    → length bs ≤ j
    → chunks_from capacity n bs ≡ chunks_from capacity j bs
unfolding chunks_from
chunks_from_enough capacity zero zero bs hc p q = refl
chunks_from_enough capacity zero (suc j) [] hc p q = refl
chunks_from_enough capacity zero (suc j) (b ∷ bs) hc p q = absurd (omega arith)
chunks_from_enough capacity (suc n) zero [] hc p q = refl
chunks_from_enough capacity (suc n) zero (b ∷ bs) hc p q = absurd (omega arith)
chunks_from_enough capacity (suc n) (suc j) [] hc p q = refl
chunks_from_enough capacity (suc n) (suc j) (b ∷ bs) hc p q = ap (◌∷◌ (take capacity (b ∷ bs))) (
    chunks_from_enough capacity n j (drop capacity (b ∷ bs)) hc
      (omega (arith, length-drop capacity (b ∷ bs))) (omega (arith, length-drop capacity (b ∷ bs))))

pub chunks-nil : (capacity : ℕ) (bs : List ℕ) → length bs ≤ 0 → chunks capacity bs ≡ []
unfolding chunks chunks_from
chunks-nil capacity [] h = refl
chunks-nil capacity (b ∷ bs) h = absurd (omega arith)

pub chunks-cons :
    (capacity : ℕ) (bs : List ℕ)
    → 0 < capacity
    → 0 < length bs
    → chunks capacity bs ≡ take capacity bs ∷ chunks capacity (drop capacity bs)
unfolding chunks chunks_from
chunks-cons capacity [] hc h = absurd (omega arith)
chunks-cons capacity (b ∷ bs) hc h = ap (◌∷◌ (take capacity (b ∷ bs))) (
    chunks_from_enough capacity (length bs) (length (drop capacity (b ∷ bs)))
      (drop capacity (b ∷ bs)) hc (omega (arith, length-drop capacity (b ∷ bs))) (omega arith))

-- No byte is lost in the cutting.
flatten-chunks_from :
    (capacity n : ℕ) (bs : List ℕ)
    → 0 < capacity
    → length bs ≤ n
    → flatten (chunks_from capacity n bs) ≡ bs
unfolding chunks_from
flatten-chunks_from capacity zero [] hc h = refl
flatten-chunks_from capacity zero (b ∷ bs) hc h = absurd (omega arith)
flatten-chunks_from capacity (suc n) [] hc h = refl
flatten-chunks_from capacity (suc n) (b ∷ bs) hc h =
    ap (◌++◌ (take capacity (b ∷ bs))) (
      flatten-chunks_from capacity n (drop capacity (b ∷ bs)) hc
        (omega (arith, length-drop capacity (b ∷ bs))))
    ∙ take-append-drop capacity (b ∷ bs)

pub flatten-chunks : (capacity : ℕ) (bs : List ℕ) → 0 < capacity → flatten (chunks capacity bs) ≡ bs
unfolding chunks
flatten-chunks capacity bs hc = flatten-chunks_from capacity (length bs) bs hc (omega arith)

-- The code takes the smaller of the length and the capacity.
pub cut_at_min :
    (capacity : ℕ) (bs : List ℕ)
    → (take (min_size (length bs) capacity) bs ≡ take capacity bs)
      × (drop (min_size (length bs) capacity) bs ≡ drop capacity bs)
cut_at_min capacity bs = elim (Bool-cases (ltb capacity (length bs))) [
  | inl h ↦ (rw h, rw h)
  | inr h ↦ (
    rw h (take-all (length bs) bs (omega arith) ∙ sym (take-all capacity bs (ground arith))),
    rw h (drop-all (length bs) bs (omega arith) ∙ sym (drop-all capacity bs (ground arith))),
  )
]
