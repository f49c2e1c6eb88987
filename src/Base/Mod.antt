-- ===== src/Base/Mod.antt =====
-- Remainders by a variable modulus.
use Prim.Native.Nat.{ℕ, ◌+◌, ◌-◌, ◌%◌, ◌≤◌, ◌<◌}
use mathlib.Core.Path.{◌≡◌, sym, ◌∙◌}
use mathlib.Core.Logic.{◌⊎◌, inl, inr}
use native.Mathlib.Nat.{mod-add-mod, mod-eq_of_lt, mod-eq-sub-mod, mod-lt}
use native.Mathlib.Decide.{dec_lt}
use native.Mathlib.Omega.{arith}

-- Going `i` places on from `p`, at most once round.
pub add-mod_cases :
    (p i n : ℕ)
    → 0 < n
    → i < n
    → ((p % n + i < n) × ((p + i) % n ≡ p % n + i))
      ⊎ ((n ≤ p % n + i) × ((p + i) % n ≡ p % n + i - n))
add-mod_cases p i n hc hi = elim (dec_lt (p % n + i) n) [
  | yes h ↦ inl (h, sym (mod-add-mod p n i) ∙ mod-eq_of_lt h)
  | no h ↦ inr (
    omega arith,
    sym (mod-add-mod p n i)
        ∙ mod-eq-sub-mod {n = p % n + i} {m = n} (omega arith)
        ∙ mod-eq_of_lt (omega (arith, mod-lt p hc)),
  )
]
