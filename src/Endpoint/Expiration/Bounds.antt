-- ===== src/Endpoint/Expiration/Bounds.antt =====
-- Where a request to extend the session puts its end, in
-- src/tateyama/endpoint/common/worker_common.h.
use tateyama.Base.{ℕ, ◌+◌, ◌*◌, ◌≤◌, ◌≡◌, refl, ◌⊎◌, inl, inr, ltb, some, arith, Bool-cases}
use tateyama.Endpoint.AliveTimer.{second, millisecond, extend}
use tateyama.Endpoint.Expiration.{Limits, requested_time, serve_update_expiration_time}

requested_time-upper :
    (l : Limits) (asked : ℕ) → requested_time l asked ≤ l.max_refresh_timeout * 1000
unfolding requested_time
requested_time-upper l asked = ground arith

requested_time-lower :
    (l : Limits) (asked : ℕ)
    → (l.refresh_timeout * 1000 ≤ requested_time l asked)
      ⊎ (l.max_refresh_timeout * 1000 ≤ requested_time l asked)
unfolding requested_time
requested_time-lower l asked = ground arith

abbrev pub Within : ℕ → ℕ → ℕ → ℕ → ℕ → Type 0
Within now least most old e =
    (old ≤ e) × ((now + least ≤ e) ⊎ (now + most ≤ e)) × ((e ≡ old) ⊎ (e ≤ now + most))

extend-Within :
    (now r least most old : ℕ)
    → (least ≤ r) ⊎ (most ≤ r)
    → r ≤ most
    → (e : ℕ) × (extend (now + r) (some old) ≡ some e) × Within now least most old e
extend-Within now r least most old lower upper = elim (Bool-cases (ltb old (now + r))) [
  | inl later ↦ (now + r, rw later refl, (ground arith, ground arith, ground arith))
  | inr earlier ↦ (old, rw earlier refl, (ground arith, ground arith, ground arith))
]

-- Where a session that ends at some time asks for a later end, it ends then no earlier than before,
-- and no earlier than either the refresh timeout or its maximum from now on; and if the end moves, it
-- is no later than the maximum from now on.
pub serve_update_expiration_time-Within :
    (l : Limits) (asked now old : ℕ)
    → l.expiration_time ≡ some old
    → (e : ℕ) × ((serve_update_expiration_time l (some asked) now).expiration_time ≡ some e)
      × Within now (l.refresh_timeout * second) (l.max_refresh_timeout * second) old e
unfolding serve_update_expiration_time
serve_update_expiration_time-Within l asked now old h = rw h (
    extend-Within now (requested_time l asked * millisecond) (l.refresh_timeout * second)
      (l.max_refresh_timeout * second) old
      (elim (requested_time-lower l asked) [
        | inl p ↦ inl (omega (arith, p))
        | inr p ↦ inr (omega (arith, p))
      ])
      (omega (arith, requested_time-upper l asked)))
