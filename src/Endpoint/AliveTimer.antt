-- ===== src/Endpoint/AliveTimer.antt =====
-- `alive_timer` of src/tateyama/endpoint/common/alive_timer.h. The answers of the clock are inputs,
-- in nanoseconds.
use tateyama.Base.{ℕ, ◌+◌, ◌*◌, ◌/◌, Bool, true, false, ltb, if◌then◌else◌, Option, none, some}

abbrev pub second : ℕ
second = 1000000000

abbrev pub millisecond : ℕ
millisecond = 1000000

-- the later of the time that is there, where one is there, and a new one
abbrev pub extend : ℕ → Option ℕ → Option ℕ
extend new_until_time none = none
extend new_until_time (some old) = if ltb old new_until_time then some new_until_time else some old

abbrev pub is_over : ℕ → Option ℕ → Bool
is_over now none = false
is_over now (some until) = ltb until now

-- `timeout` is in seconds
pub record AliveTimer : Type 0 where
  pub timeout : ℕ
  pub enable_timeout : Bool
  pub expiration_time : Option ℕ

unfoldable pub update_expiration_time : AliveTimer → Bool → ℕ → AliveTimer
update_expiration_time t force now =
    let new_until_time = now + t.timeout * second in
    if t.enable_timeout
    then record t {
      expiration_time =
          (if force then some new_until_time else extend new_until_time t.expiration_time);
    }
    else t

unfoldable pub alive_timer : ℕ → ℕ → AliveTimer
unfolding update_expiration_time
alive_timer timeout now =
    update_expiration_time
      (record { timeout = timeout; enable_timeout = ltb 0 timeout; expiration_time = none }) true
      now

unfoldable pub is_expiration_time_over : AliveTimer → ℕ → Bool
is_expiration_time_over t now = is_over now t.expiration_time

-- in milliseconds; 0 where there is none
unfoldable pub next_expiration : AliveTimer → ℕ
next_expiration t = elim t.expiration_time [
  | none ↦ 0
  | some until ↦ (if t.enable_timeout then until / millisecond else 0)
]
