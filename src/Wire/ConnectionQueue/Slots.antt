-- ===== src/Wire/ConnectionQueue/Slots.antt =====
-- The free slots that an `index_queue` holds, oldest first.
use tateyama.Base.{
  ℕ, suc, ◌+◌, ◌-◌, ◌%◌, ◌^◌, ◌≤◌, ◌<◌, ◌≡◌, ◌≢◌, sym, ap, ◌∙◌, List, [], ◌∷◌, ◌++◌, arith, length,
  get_or, set, get_or-set_self, get_or-set_ne,
}
use tateyama.Base.Mod.{add-mod_cases}
use tateyama.Wire.Ring.{Memory}
use tateyama.Wire.Ring.Stream.{stream, stream-append, stream-congr, length-stream}
use tateyama.Wire.ConnectionQueue.{IndexQueue}
use native.Mathlib.Nat.{mod-lt}

abbrev pub at_place : List ℕ → Memory
at_place queue a = get_or queue a 0

-- the `n` places of the ring from position `p` on
unfoldable pub window : IndexQueue → ℕ → ℕ → List ℕ
window q p n = stream q.capacity (at_place q.queue) p n

-- The positions `poped` to `pushed + admin_slots` are free, and the counters have not wrapped.
pub record IsValid (admin_slots : ℕ) (q : IndexQueue) : Type 0 where
  pub small : q.capacity < 2 ^ 32
  pub whole : length q.queue ≡ q.capacity
  pub reserved : admin_slots ≤ q.capacity
  pub byte : admin_slots < 256
  pub ordered : q.poped ≤ q.pushed + admin_slots
  pub fits : q.pushed + admin_slots ≤ q.poped + q.capacity
  pub counted : q.pushed < 2 ^ 62

unfoldable pub free_slots : ℕ → IndexQueue → List ℕ
free_slots admin_slots q = window q q.poped (q.pushed + admin_slots - q.poped)

pub length-free_slots :
    (admin_slots : ℕ) (q : IndexQueue)
    → length (free_slots admin_slots q) ≡ q.pushed + admin_slots - q.poped
unfolding free_slots window
length-free_slots a q = length-stream q.capacity (at_place q.queue) q.poped (q.pushed + a - q.poped)

-- two positions less than a lap apart have different places
place_ne : (p i n cap : ℕ) → 0 < cap → i < n → n < cap → (p + n) % cap ≢ (p + i) % cap
place_ne p i n cap hc hi hn =
    ground (arith, add-mod_cases p i cap hc, add-mod_cases p n cap hc, mod-lt p hc)

-- Writing at the end of the free slots adds one to them.
pub free_slots-push :
    {a : ℕ} {q : IndexQueue} (v : IsValid a q) (s n in_use : ℕ)
    → n ≡ q.pushed + 1
    → q.pushed + a < q.poped + q.capacity
    → free_slots a (record q {
      queue = set q.queue ((q.pushed + a) % q.capacity) s;
      pushed = n;
      admin_slots_in_use = in_use;
    })
      ≡ free_slots a q ++ (s ∷ [])
unfolding free_slots window stream
free_slots-push {a} {q} v s n in_use e room =
    ap (stream q.capacity (at_place after) q.poped) split
    ∙ stream-append q.capacity (at_place after) q.poped held 1
    ∙ (λ i. old i ++ (new i ∷ []))
  where
    held : ℕ
    held = q.pushed + a - q.poped

    after : List ℕ
    after = set q.queue ((q.pushed + a) % q.capacity) s

    split : n + a - q.poped ≡ held + 1
    split = omega (arith, v)

    end : q.poped + held ≡ q.pushed + a
    end = omega (arith, v)

    apart : (i : ℕ) → i < held → (q.pushed + a) % q.capacity ≢ (q.poped + i) % q.capacity
    apart i hi =
        rw (← end) (place_ne q.poped i held q.capacity (omega (arith, v)) hi (omega (arith, v)))

    old :
        stream q.capacity (at_place after) q.poped held
        ≡ stream q.capacity (at_place q.queue) q.poped held
    old = stream-congr q.capacity (at_place after) (at_place q.queue) q.poped held λ i hi.
        get_or-set_ne q.queue ((q.pushed + a) % q.capacity) ((q.poped + i) % q.capacity) s 0
          (apart i hi)

    new : get_or after ((q.poped + held) % q.capacity) 0 ≡ s
    new = rw end (
        get_or-set_self q.queue ((q.pushed + a) % q.capacity) s 0
          (omega (arith, v.whole, mod-lt (q.pushed + a) {m = q.capacity} (omega (arith, v)))))

-- The slot at the front is the first free one.
pub free_slots-pop :
    {a : ℕ} {q : IndexQueue} (v : IsValid a q) (p in_use : ℕ)
    → p ≡ q.poped + 1
    → q.poped < q.pushed + a
    → free_slots a q
      ≡ get_or q.queue (q.poped % q.capacity) 0
        ∷ free_slots a (record q { poped = p; admin_slots_in_use = in_use })
unfolding free_slots window stream
free_slots-pop {a} {q} v p in_use e h =
    ap (stream q.capacity (at_place q.queue) q.poped) split
    ∙ ap
        (λ (n : ℕ).
          get_or q.queue (q.poped % q.capacity) 0
          ∷ stream q.capacity (at_place q.queue) n (q.pushed + a - p))
        (sym e)
  where
    split : q.pushed + a - q.poped ≡ suc (q.pushed + a - p)
    split = omega (arith, v)
