-- ===== src/Wire/ConnectionQueue/Sessions.antt =====
-- What the connection queue guarantees about the slots that it hands out, from its construction on.
use mathlib.Core.List.{Nodup, Mem, Nodup-cons, Nodup-nil, Nodup-append, mem-cons, not-mem-nil}
use mathlib.Core.Logic.Or
use native.Mathlib.Bridge.{le_prop}
use native.Mathlib.Nat.{mod-eq_of_lt}
use tateyama.Base.{
  ℕ, zero, suc, ◌+◌, ◌-◌, ◌^◌, ◌≤◌, ◌<◌, ◌≡◌, ◌↔◌, refl, ap, ◌∙◌, none, [], map, arith, length, All,
  append-nil,
}
use tateyama.Base.Words.{sub_size}
use tateyama.Wire.Ring.Stream.{stream, stream-eq}
use tateyama.Wire.ConnectionQueue.{
  new_index_queue, fill, count_up, try_pop, try_pop_admin, reset_admin, admin_bit,
}
use tateyama.Wire.ConnectionQueue.Slots.{free_slots, at_place, window}
use tateyama.Wire.ConnectionQueue.Desk.{Desk, admins, Steps, Inv, Steps-Inv}

length-count_up : (from n : ℕ) → length (count_up from n) ≡ n
length-count_up from zero = refl
length-count_up from (suc n) = ap suc (length-count_up (suc from) n)

le_of_mem-count_up : {x : ℕ} (from n : ℕ) → Mem x (count_up from n) → from ≤ x
le_of_mem-count_up from zero m = absurd (not-mem-nil m)
le_of_mem-count_up {x} from (suc n) m =
    Or.elim le_prop (mem-cons.0 m) (λ e. omega arith)
      (λ t. omega (arith, le_of_mem-count_up {x = x} (suc from) n t))

count_up-Nodup : (from n : ℕ) → Nodup (count_up from n)
count_up-Nodup from zero = Nodup-nil
count_up-Nodup from (suc n) = Nodup-cons.1 (
  (λ m. omega (arith, le_of_mem-count_up {x = from} (suc from) n m)),
  count_up-Nodup (suc from) n,
)

count_up-small : (from n b : ℕ) → from + n ≤ b → All (λ s. s < b) (count_up from n)
count_up-small from zero b h = tt
count_up-small from (suc n) b h = (omega arith, count_up-small (suc from) n b (omega arith))

abbrev pub opened : ℕ → ℕ → Desk
opened n a = record { queue = fill (new_index_queue (n + a)) a; held = [] }

module _ (n a : ℕ) (small : n + a < 2 ^ 32) (byte : a < 256) where
  opened-free_slots : free_slots a (opened n a).queue ≡ count_up 0 (n + a)
  unfolding free_slots window fill new_index_queue
  opened-free_slots =
      ap (stream (n + a) (at_place (count_up 0 (n + a))) 0) count
      ∙ stream-eq (n + a) (at_place (count_up 0 (n + a))) 0 (count_up 0 (n + a)) λ i h.
        let le : i < n + a = omega (arith, length-count_up 0 (n + a)) in
        let z : 0 + i ≡ i = omega arith in rw (z, mod-eq_of_lt le)
    where
      count : sub_size (n + a) a + a - 0 ≡ length (count_up 0 (n + a))
      count = omega (arith, length-count_up 0 (n + a))

  opened-Inv : Inv n a (opened n a)
  unfolding fill new_index_queue
  opened-Inv =
      let free = opened-free_slots in
      record {
        valid = omega (arith, length-count_up 0 (n + a));
        total = refl;
        balance = omega arith;
        in_use = refl;
        admin_limit = omega arith;
        normal_limit = omega arith;
        distinct = rw (free, append-nil) (count_up-Nodup 0 (n + a));
        free_small = rw free (count_up-small 0 (n + a) admin_bit (omega arith));
        held_small = tt;
      }

  -- In a queue for `n` normal and `a` admin sessions, after any history of requests and returns in
  -- which administrators hold at most `a` slots at a time: no two sessions have the same slot, and at
  -- most `n` normal and `a` admin slots are out.
  pub slots_exclusive :
      {d : Desk}
      → Steps a (opened n a) d
      → Nodup (map reset_admin d.held) × (length d.held ≤ n + admins d.held) × (admins d.held ≤ a)
  slots_exclusive {d} steps =
      let v = Steps-Inv n a steps opened-Inv in
      ((Nodup-append.0 v.distinct).1, v.normal_limit, v.admin_limit)

  -- After a history in which administrators hold at most `a` slots at a time, a normal request is
  -- refused exactly when `n` normal sessions hold a slot.
  pub request_refused_iff :
      {d : Desk}
      → Steps a (opened n a) d
      → (try_pop d.queue ≡ none) ↔ (length d.held ≡ n + admins d.held)
  unfolding try_pop
  request_refused_iff {d} steps =
      let v = Steps-Inv n a steps opened-Inv in ((λ e. ground (arith, v)), (λ e. ground (arith, v)))

  -- After a history in which administrators hold at most `a` slots at a time, an admin request is
  -- refused exactly when the sessions, with the admin sessions counted twice, reach `n + a`.
  pub request_admin_refused_iff :
      {d : Desk}
      → Steps a (opened n a) d
      → (try_pop_admin d.queue a ≡ none) ↔ (n + a ≤ length d.held + admins d.held)
  unfolding try_pop_admin
  request_admin_refused_iff {d} steps =
      let v = Steps-Inv n a steps opened-Inv in ((λ e. ground (arith, v)), (λ e. ground (arith, v)))
