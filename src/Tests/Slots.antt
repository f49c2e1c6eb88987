-- ===== src/Tests/Slots.antt =====
-- A server with three normal and one admin session slots.
use tateyama.Base.{
  ℕ, ◌+◌, ◌%◌, ◌≤◌, ◌≡◌, ◌↔◌, refl, Option, none, some, List, [], ◌∷◌, ◌++◌, map, arith, length,
  set,
}
use tateyama.Wire.ConnectionQueue.{
  ConnectionQueue, IndexQueue, new_connection_queue, new_index_queue, fill, push, try_pop,
  try_pop_admin, set_admin, reset_admin, admin_bit, request, request_admin,
}
use mathlib.Core.List.{Nodup}
use tateyama.Wire.ConnectionQueue.Admin.{reset_admin-set_admin}
use tateyama.Wire.ConnectionQueue.Desk.{
  Desk, admins, Steps, here, next, requests, requests_admin, returns,
}
use tateyama.Wire.ConnectionQueue.Slots.{IsValid, free_slots, free_slots-push}
use tateyama.Wire.ConnectionQueue.Sessions.{
  opened, slots_exclusive, request_refused_iff, request_admin_refused_iff,
}

abbrev queue_at : ℕ → ℕ → ℕ → List ℕ → IndexQueue
queue_at pushed poped in_use slots = record {
  queue = slots;
  capacity = 4;
  admin_slots_in_use = in_use;
  pushed = pushed;
  poped = poped;
}

abbrev slots : List ℕ
slots = 0 ∷ 1 ∷ 2 ∷ 3 ∷ []

-- two normal sessions and an administrator have come, and the first session has gone
abbrev busy : Desk
busy = record { queue = queue_at 4 3 1 slots; held = (2 + admin_bit) ∷ 1 ∷ [] }

busy_steps : Steps 1 (opened 3 1) busy
unfolding try_pop try_pop_admin set_admin reset_admin push fill new_index_queue
busy_steps =
    next
      (next
        (next (next here (requests 0 (queue_at 3 1 0 slots) refl refl))
          (requests 1 (queue_at 3 2 0 slots) refl refl))
        (requests_admin (2 + admin_bit) (queue_at 3 3 1 slots) (omega arith) refl refl))
      (returns 0 ((2 + admin_bit) ∷ 1 ∷ []) [] refl (omega arith) refl)

slots_exclusive_example :
    Nodup (map reset_admin busy.held)
    × (length busy.held ≤ 3 + admins busy.held)
    × (admins busy.held ≤ 1)
slots_exclusive_example = slots_exclusive 3 1 (omega arith) (omega arith) busy_steps

request_refused_iff_example :
    (try_pop busy.queue ≡ none) ↔ (length busy.held ≡ 3 + admins busy.held)
request_refused_iff_example = request_refused_iff 3 1 (omega arith) (omega arith) busy_steps

request_admin_refused_iff_example :
    (try_pop_admin busy.queue 1 ≡ none) ↔ (4 ≤ length busy.held + admins busy.held)
request_admin_refused_iff_example =
    request_admin_refused_iff 3 1 (omega arith) (omega arith) busy_steps

reset_admin-set_admin_example : reset_admin (set_admin 2) ≡ 2
reset_admin-set_admin_example = reset_admin-set_admin 2 (omega arith)

taken-IsValid : IsValid 1 (queue_at 3 2 0 slots)
taken-IsValid = omega arith

free_slots-push_example :
    free_slots 1 (record (queue_at 3 2 0 slots) {
      queue = set slots ((3 + 1) % 4) 1;
      pushed = 4;
      admin_slots_in_use = 0;
    })
    ≡ free_slots 1 (queue_at 3 2 0 slots) ++ (1 ∷ [])
free_slots-push_example = free_slots-push taken-IsValid 1 4 0 refl (omega arith)

abbrev then_request : Option (ℕ × ConnectionQueue) → Option (ℕ × ConnectionQueue)
then_request none = none
then_request (some (s, c)) = request c

abbrev then_request_admin : Option (ℕ × ConnectionQueue) → Option (ℕ × ConnectionQueue)
then_request_admin none = none
then_request_admin (some (s, c)) = request_admin c

abbrev slot_given : Option (ℕ × ConnectionQueue) → Option ℕ
slot_given none = none
slot_given (some (s, c)) = some s

-- With two administrators let in on the one admin slot, the fifth session of the four slots has
-- the slot of the first.
slot_given_twice :
    slot_given (
      then_request (
        then_request
          (then_request (then_request_admin (request_admin (new_connection_queue 3 1))))))
    ≡ some 0
unfolding request request_admin try_pop try_pop_admin set_admin push reset_admin
    new_connection_queue fill new_index_queue
slot_given_twice = refl
