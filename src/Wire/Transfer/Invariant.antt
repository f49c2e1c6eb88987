-- ===== src/Wire/Transfer/Invariant.antt =====
-- What holds at every moment of a transfer: the wire holds whole chunks, and these with the chunks
-- that the writer still has to push are the chunks that the reader still has to take.
use tateyama.Base.{ℕ, ◌+◌, ◌-◌, ◌<◌, ◌≡◌, List, [], ◌∷◌, ◌++◌, length, take, drop, All}
use tateyama.Base.Words.{size_mod}
use tateyama.Wire.Header.{HeaderKind}
use tateyama.Wire.SimpleWire.{Writing}
use tateyama.Wire.SimpleWire.Valid.{IsValid, contents}
use tateyama.Wire.Transfer.{Message, Reader, between, within, Channel}
use tateyama.Wire.Transfer.Chunking.{flatten, chunks}

module _ (k : HeaderKind) (capacity : ℕ) where
  -- the body has the announced length, and the fields of the header fit
  pub record IsSound (m : Message k) : Type 0 where
    pub in_range : k.InRange m.header
    pub whole : length m.body ≡ k.get_length m.header

  abbrev pub message_chunks : Message k → List (List ℕ)
  message_chunks m =
      (k.get_buffer m.header ++ take (capacity - k.size) m.body)
      ∷ chunks capacity (drop (capacity - k.size) m.body)

  abbrev pub all_chunks : List (Message k) → List (List ℕ)
  all_chunks [] = []
  all_chunks (m ∷ ms) = message_chunks m ++ all_chunks ms

  -- the chunks that the writer has left of its current message
  abbrev pub Writes : Writing → List (List ℕ) → Type 0
  Writes (Writing.more rest) cs = (0 < length rest) × (cs ≡ chunks capacity rest)
  Writes Writing.finished cs = cs ≡ []
  Writes Writing.abandoned cs = ⊥

  -- the chunks that the reader expects of its current message, and that message
  abbrev pub Reads : Reader k → List (List ℕ) → List (Message k) → Type 0
  Reads between cs ms = (cs ≡ []) × (ms ≡ [])
  Reads (within h n out) cs ms =
      (tail : List ℕ) × (length tail ≡ n)
      × (0 < n)
      × (cs ≡ chunks capacity tail)
      × (ms ≡ record { header = h; body = out ++ tail } ∷ [])

  -- `all` are the messages of the whole transfer.
  pub record Inv (all : List (Message k)) (c : Channel k) : Type 0 where
    pub valid : IsValid k c.wire
    pub capacity_same : c.wire.capacity ≡ capacity
    pub queue : List (List ℕ)
    pub to_push : List (List ℕ)
    pub to_take : List (List ℕ)
    pub current : List (Message k)
    pub undelivered : List (Message k)
    pub held : contents k c.wire ≡ flatten queue
    pub writes : Writes c.writing to_push
    pub reads : Reads c.reading to_take current
    pub plan : queue ++ (to_push ++ all_chunks c.todo) ≡ to_take ++ all_chunks undelivered
    pub order : all ≡ c.delivered ++ (current ++ undelivered)
    pub sound_todo : All IsSound c.todo
    pub sound_undelivered : All IsSound undelivered
    pub counted : c.wire.pushed + length (flatten (to_push ++ all_chunks c.todo)) < size_mod
