-- ===== src/Raft/Storage/Runs.antt =====
-- A save that stops half way, a loss of power, and the theorem about it.
use murmur.Prelude.{◌≡◌, refl, Bool, true, none, some, [], ◌∷◌}
use murmur.Prelude.Result.{err}
use murmur.Raft.StateFile
use murmur.Raft.StateFile.{PersistentState, encode, io_error}
use murmur.Raft.Storage.{Storage, Fault, file, load, save}
use murmur.Raft.Storage.PowerLoss.{Disk}

-- The disk fills up after ten bytes of the second save.
abbrev full_disk : Storage
full_disk = file (record {
  path = some (encode StateFile.default);
  tmp = none;
  unreadable = Bool.false;
  faults = some (Fault.write 10) ∷ [];
})

abbrev next_state : PersistentState
next_state = record StateFile.default { current_term = 1; voted_for = some 3 }

stopped_run : (save full_disk next_state).1 ≡ err io_error
unfolding save
stopped_run = refl

stopped_load : load (save full_disk next_state).0 ≡ load full_disk
unfolding load save
stopped_load = refl

-- A disk that holds the old state, where the power is lost after the new one has its name.
abbrev old_disk : Disk
old_disk = record {
  entries = some (record { content = encode StateFile.default; synced = true }) ∷ [];
  tmp = none;
}
