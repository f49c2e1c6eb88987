-- ===== src/Wire/ConnectionQueue.antt =====
-- `connection_queue` of src/tateyama/endpoint/ipc/wire.h: how a client gets a slot for a session.
-- Every operation that runs under the queue's mutex is one step; the semaphore, the condition
-- variables and the timers are left out.
pub mod Slots
pub mod Admin
pub mod Desk
pub mod Sessions
use tateyama.Base.{
  ℕ, zero, suc, ◌+◌, ◌-◌, ◌/◌, ◌%◌, ◌^◌, Bool, true, false, ◌&&◌, ltb, leb, ◌==◌, if◌then◌else◌,
  Option, none, some, List, [], ◌∷◌, get_or, set, replicate,
}
use tateyama.Base.Words.{add_size, sub_size}

abbrev pub admin_bit : ℕ
admin_bit = 2 ^ 63

-- `session_id_indicating_error`
abbrev pub error_session_id : ℕ
error_session_id = 2 ^ 64 - 1

-- (slot & admin_bit) != 0, for a 64-bit number
abbrev pub is_admin : ℕ → Bool
is_admin slot = (slot / admin_bit % 2) == 1

-- slot | admin_bit
unfoldable pub set_admin : ℕ → ℕ
set_admin slot = if is_admin slot then slot else slot + admin_bit

-- slot & ~admin_bit
unfoldable pub reset_admin : ℕ → ℕ
reset_admin slot = if is_admin slot then slot - admin_bit else slot

pub record IndexQueue : Type 0 where
  pub queue : List ℕ
  pub capacity : ℕ
  pub admin_slots_in_use : ℕ
  pub pushed : ℕ
  pub poped : ℕ

abbrev pub index : IndexQueue → ℕ → ℕ
index q n = n % q.capacity

unfoldable pub new_index_queue : ℕ → IndexQueue
new_index_queue size = record {
  queue = replicate size 0;
  capacity = size;
  admin_slots_in_use = 0;
  pushed = 0;
  poped = 0;
}

-- for (i = from; i < from + n; i++)
abbrev pub count_up : ℕ → ℕ → List ℕ
count_up from zero = []
count_up from (suc n) = from ∷ count_up (suc from) n

-- `fill` writes every place of the queue.
unfoldable pub fill : IndexQueue → ℕ → IndexQueue
fill q admin_slots = record q {
  queue = count_up 0 q.capacity;
  pushed = sub_size q.capacity admin_slots;
}

-- `admin_slots_in_use_` has 8 bits.
unfoldable pub push : IndexQueue → ℕ → ℕ → IndexQueue
unfolding reset_admin
push q sid admin_slots =
    let place = index q (add_size q.pushed admin_slots) in
    if ltb 0 admin_slots && is_admin sid
    then record q {
      queue = set q.queue place (reset_admin sid);
      admin_slots_in_use = (q.admin_slots_in_use + 255) % 256;
      pushed = add_size q.pushed 1;
    }
    else record q { queue = set q.queue place sid; pushed = add_size q.pushed 1 }

-- `try_pop()`; `none` is the exception
unfoldable pub try_pop : IndexQueue → Option (ℕ × IndexQueue)
try_pop q =
    if leb (add_size q.pushed q.admin_slots_in_use) q.poped
    then none
    else some (get_or q.queue (index q q.poped) 0, record q { poped = add_size q.poped 1 })

-- `try_pop(admin_slots)`; the difference of two 8-bit numbers is an `int`
unfoldable pub try_pop_admin : IndexQueue → ℕ → Option (ℕ × IndexQueue)
unfolding set_admin
try_pop_admin q admin_slots =
    if leb (add_size q.pushed (sub_size admin_slots q.admin_slots_in_use)) q.poped
    then none
    else some (
      set_admin (get_or q.queue (index q q.poped) 0),
      record q {
        poped = add_size q.poped 1;
        admin_slots_in_use = (q.admin_slots_in_use + 1) % 256;
      },
    )

unfoldable pub pop : IndexQueue → IndexQueue
pop q = record q { poped = add_size q.poped 1 }

unfoldable pub front : IndexQueue → ℕ
front q = get_or q.queue (index q q.poped) 0

-- `size`, for diagnostics
unfoldable pub size : IndexQueue → ℕ
size q = sub_size q.pushed q.poped

-- An element of `v_requested_` is the session id that it was given, 0 for none.
pub record ConnectionQueue : Type 0 where
  pub free : IndexQueue
  pub requested : IndexQueue
  pub elements : List ℕ
  pub terminated : Bool
  pub admin_slots : ℕ
  pub session_id : ℕ

unfoldable pub new_connection_queue : ℕ → ℕ → ConnectionQueue
unfolding fill new_index_queue
new_connection_queue n as_n = record {
  free = fill (new_index_queue (n + as_n)) as_n;
  requested = new_index_queue (n + as_n);
  elements = replicate (n + as_n) 0;
  terminated = false;
  admin_slots = as_n;
  session_id = 0;
}

unfoldable pub request : ConnectionQueue → Option (ℕ × ConnectionQueue)
unfolding try_pop push
request c = elim (try_pop c.free) [
  | none ↦ none
  | some (sid, free) ↦ some (sid, record c { free = free; requested = push c.requested sid 0 })
]

unfoldable pub request_admin : ConnectionQueue → Option (ℕ × ConnectionQueue)
unfolding try_pop_admin push
request_admin c = elim (try_pop_admin c.free c.admin_slots) [
  | none ↦ none
  | some (sid, free) ↦ some (sid, record c { free = free; requested = push c.requested sid 0 })
]

unfoldable pub check : ConnectionQueue → ℕ → Bool
unfolding reset_admin
check c sid = ltb 0 (get_or c.elements (reset_admin sid) 0)

-- `wait` once the entry is set, or at the timeout, which throws; `none` is the wait itself
pub data Waited : Type 0 where
  accepted : ℕ → Waited
  throws : Waited

unfoldable pub wait : ConnectionQueue → ℕ → Bool → Option (Waited × ConnectionQueue)
unfolding check reset_admin
wait c sid timeout =
    let reused = record c { elements = set c.elements (reset_admin sid) 0 } in
    if check c sid
    then some (accepted (get_or c.elements (reset_admin sid) 0), reused)
    else if timeout
    then some (throws, reused)
    else none

-- `listen` after its timed wait: a session id, or 0 if the wait ran out
unfoldable pub listen : ConnectionQueue → ℕ × ConnectionQueue
listen c =
    if ltb c.requested.poped c.requested.pushed
    then (add_size c.session_id 1, record c { session_id = add_size c.session_id 1 })
    else if c.terminated
    then (add_size c.session_id 1, record c { session_id = add_size c.session_id 1 })
    else (0, c)

unfoldable pub slot : ConnectionQueue → ℕ
unfolding front
slot c = front c.requested

unfoldable pub accept : ConnectionQueue → ℕ → ℕ → ConnectionQueue
unfolding pop reset_admin
accept c sid session_id = record c {
  requested = pop c.requested;
  elements = set c.elements (reset_admin sid) session_id;
}

unfoldable pub reject : ConnectionQueue → ℕ → ConnectionQueue
unfolding pop push reset_admin
reject c sid = record c {
  requested = pop c.requested;
  elements = set c.elements (reset_admin sid) error_session_id;
  free = push c.free sid c.admin_slots;
}

unfoldable pub disconnect : ConnectionQueue → ℕ → ConnectionQueue
unfolding push
disconnect c sid = record c { free = push c.free sid c.admin_slots }

unfoldable pub request_terminate : ConnectionQueue → ConnectionQueue
request_terminate c = record c { terminated = true }

unfoldable pub pending_requests : ConnectionQueue → ℕ
unfolding size
pending_requests c = size c.requested
