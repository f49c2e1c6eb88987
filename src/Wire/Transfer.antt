-- ===== src/Wire/Transfer.antt =====
-- One process writes messages to a `simple_wire` while another peeps and reads them
-- (src/tateyama/endpoint/ipc/wire.h). Each step is one chunk of `write` or of `read`, and the steps
-- of the two interleave in any order. The wire stays open.
pub mod Chunking
pub mod Invariant
pub mod Writer
pub mod Taking
pub mod Delivery
use mathlib.Core.Option
use tateyama.Base.{ℕ, ◌≡◌, leb, if◌then◌else◌, Option, none, some, List, [], ◌∷◌, ◌++◌, false}
use tateyama.Wire.Header.{HeaderKind}
use tateyama.Wire.SimpleWire
use tateyama.Wire.SimpleWire.{
  Wire, Writing, Reading, stored, copy_header, read_first, read_rest, write_first, write_rest,
}

module _ (k : HeaderKind) where
  pub record Message : Type 0 where
    pub header : k.Header
    pub body : List ℕ

  -- The reader is between two messages, or within one, with so many bytes to come.
  pub data Reader : Type 0 where
    between : Reader
    within : k.Header → ℕ → List ℕ → Reader

  pub record Channel : Type 0 where
    pub wire : Wire k
    pub todo : List Message
    pub writing : Writing
    pub reading : Reader
    pub delivered : List Message

  unfoldable pub wrote : Channel → List Message → Wire k × Writing → Channel
  wrote c todo (w, s) = record c { wire = w; todo = todo; writing = s }

  unfoldable pub send_from : Writing → List Message → Channel → Option Channel
  unfolding wrote
  send_from (Writing.more from) todo c = Option.map (wrote c todo) (write_rest k c.wire from false)
  send_from Writing.finished [] c = none
  send_from Writing.finished (m ∷ ms) c =
      Option.map (wrote c ms) (write_first k c.wire m.header m.body false)
  send_from Writing.abandoned todo c = none

  -- the writer's next step, or `none` while it has to wait or has nothing to write
  unfoldable pub send : Channel → Option Channel
  unfolding send_from
  send c = send_from c.writing c.todo c

  unfoldable pub took : Channel → k.Header → Wire k × Reading → Channel
  took c h (w, Reading.more n out) = record c { wire = w; reading = within h n out }
  took c h (w, Reading.finished out) = record c {
    wire = w;
    reading = between;
    delivered = c.delivered ++ (record { header = h; body = out } ∷ []);
  }

  unfoldable pub receive_from : Reader → Channel → Option Channel
  unfolding took
  receive_from between c =
      if leb k.size (stored k c.wire)
      then (let w = copy_header k c.wire in some (took c w.header_received (read_first k w)))
      else none
  receive_from (within h n out) c = Option.map (took c h) (read_rest k c.wire n out)

  -- the reader's next step, or `none` while it has to wait
  unfoldable pub receive : Channel → Option Channel
  unfolding receive_from
  receive c = receive_from c.reading c

  pub data Step (c c' : Channel) : Type 0 where
    sends : send c ≡ some c' → Step c c'
    receives : receive c ≡ some c' → Step c c'

  pub data Steps (c : Channel) : Channel → Type 0 where
    here : Steps c c
    next : {d e : Channel} → Steps c d → Step d e → Steps c e

  -- an empty wire, with messages to be written
  unfoldable pub opened : Wire k → List Message → Channel
  opened w ms = record {
    wire = w;
    todo = ms;
    writing = Writing.finished;
    reading = between;
    delivered = [];
  }
