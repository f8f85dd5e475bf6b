-- ===== src/Raft/Storage/Crash.antt =====
-- raft/storage.rs: a save is all or nothing, whichever call of it fails.
use murmur.Prelude.{◌≡◌, refl, ◌⊎◌, inl, Bool, arith}
use murmur.Prelude.Result.{ok, err}
use murmur.Raft.StateFile.{PersistentState, io_error}
use murmur.Raft.StateFile.RoundTrip.{Encodable, decode-encode}
use murmur.Raft.Storage.{Storage, in_memory, file, load, save, IsReliable}

abbrev pub IsReadable : Storage → Type 0
IsReadable (in_memory s) = Unit
IsReadable (file f) = f.unreadable ≡ Bool.false

-- For a state that can be encoded and a storage whose file can be read: either the save answers
-- `ok` and then the new state is loaded, or it answers an error and then the old content is loaded.
pub save_all_or_nothing :
    (st : Storage) (s : PersistentState)
    → Encodable s
    → IsReadable st
    → (((save st s).1 ≡ ok tt) × (load (save st s).0 ≡ ok s))
      ⊎ (((save st s).1 ≡ err io_error) × (load (save st s).0 ≡ load st))
unfolding save load
save_all_or_nothing (in_memory old) s h r = inl (refl, refl)
save_all_or_nothing (file f) s h r = ground (arith, decode-encode s h)

-- On a reliable storage every save succeeds, is read back, and leaves the storage reliable.
pub save-IsReliable :
    (st : Storage) (s : PersistentState)
    → Encodable s
    → IsReliable st
    → ((save st s).1 ≡ ok tt) × (load (save st s).0 ≡ ok s) × IsReliable (save st s).0
unfolding save load
save-IsReliable (in_memory old) s h r = (refl, refl, tt)
save-IsReliable (file f) s h r = ground (arith, decode-encode s h)
