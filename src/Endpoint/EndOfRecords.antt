-- ===== src/Endpoint/EndOfRecords.antt =====
-- `resultset_wires_container_impl` of src/tateyama/endpoint/ipc/bootstrap/server_wires_impl.h, as far
-- as it tells the client the end of the records: when all of the writers are complete and the result
-- set is at its end. The wires that it opens and closes are in shared memory, and not part of it.
pub mod Signal
use tateyama.Base.{ℕ, ◌+◌, Bool, true, false, ◌&&◌, ◌==◌, if◌then◌else◌}

-- `signals` counts the calls of `set_eor` of the wires.
pub record ResultSet : Type 0 where
  pub writers : ℕ
  pub completed_writers : ℕ
  pub eor : Bool
  pub notify_eor : Bool
  pub signals : ℕ

abbrev pub result_set : ResultSet
result_set = record {
  writers = 0;
  completed_writers = 0;
  eor = false;
  notify_eor = false;
  signals = 0;
}

unfoldable pub notify_eor_conditional : ResultSet → ResultSet
notify_eor_conditional r =
    if (r.writers == r.completed_writers) && r.eor
    then if r.notify_eor then r else record r { notify_eor = true; signals = r.signals + 1 }
    else r

-- `acquire`, where the wires have one
abbrev pub acquire : ResultSet → ResultSet
acquire r = record r { writers = r.writers + 1 }

unfoldable pub write_complete : ResultSet → ResultSet
unfolding notify_eor_conditional
write_complete r = notify_eor_conditional (record r { completed_writers = r.completed_writers + 1 })

unfoldable pub set_eor : ResultSet → ResultSet
unfolding notify_eor_conditional
set_eor r = notify_eor_conditional (record r { eor = true })
