-- ===== src/Wire/Ring.antt =====
-- The byte-copying core of `simple_wire` (src/tateyama/endpoint/ipc/wire.h): a ring of `capacity`
-- bytes that starts at `base`. An address is an offset from `base`; the memory is a function, so
-- that a copy past the ring's end shows as a change at an offset of `capacity` or more.
pub mod Stream
pub mod Copy
use tateyama.Base.{
  ℕ, zero, suc, ◌+◌, ◌-◌, ◌%◌, Bool, ◌&&◌, ltb, leb, if◌then◌else◌, List, [], ◌∷◌, ◌++◌, length,
  get_or, take, drop,
}

abbrev pub Memory : Type 0
Memory = ℕ → ℕ

-- memcpy of `from` to the addresses from `top` on
abbrev pub memcpy : Memory → ℕ → List ℕ → Memory
memcpy m top from a =
    if leb top a && ltb a (top + length from) then get_or from (a - top) 0 else m a

-- memcpy of `n` bytes from the address `from`
abbrev pub load : Memory → ℕ → ℕ → List ℕ
load m from zero = []
load m from (suc n) = m from ∷ load m (from + 1) n

-- `index`
abbrev pub index : ℕ → ℕ → ℕ
index capacity n = n % capacity

-- `write_in_buffer`; `from` holds exactly the `length` bytes
unfoldable pub write_in_buffer : ℕ → Memory → ℕ → List ℕ → Memory
write_in_buffer capacity m top from =
    if leb (top + length from) capacity
    then memcpy m top from
    else (let first_part = capacity - top in
        memcpy (memcpy m top (take first_part from)) 0 (drop first_part from))

-- `read_from_buffer`
unfoldable pub read_from_buffer : ℕ → Memory → ℕ → ℕ → List ℕ
read_from_buffer capacity m from n =
    if leb (from + n) capacity
    then load m from n
    else (let first_part = capacity - from in load m from first_part ++ load m 0 (n - first_part))
