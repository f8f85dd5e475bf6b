-- ===== src/Raft/Storage/Holds.antt =====
-- What a working storage holds, and that it comes back: raft/storage.rs as the consensus module uses
-- it.
use murmur.Prelude.{◌≡◌, refl, Option, none, some, [], Bool}
use murmur.Prelude.Result.{ok}
use murmur.Raft.Types.{Bytes}
use murmur.Raft.StateFile
use murmur.Raft.StateFile.{PersistentState, encode}
use murmur.Raft.StateFile.RoundTrip.{Encodable, decode-encode}
use murmur.Raft.Storage.{Storage, in_memory, file, load_file, load, save, IsReliable}

FileHolds : Option Bytes → PersistentState → Type 0
FileHolds none s = s ≡ StateFile.default
FileHolds (some bytes) s = bytes ≡ encode s

-- A storage without faults whose content is the state.
unfoldable pub Holds : Storage → PersistentState → Type 0
unfolding FileHolds
Holds (in_memory old) s = old ≡ s
Holds (file f) s = FileHolds f.path s × (f.faults ≡ []) × (f.unreadable ≡ Bool.false)

pub Holds-IsReliable : (st : Storage) (s : PersistentState) → Holds st s → IsReliable st
unfolding Holds
Holds-IsReliable (in_memory old) s h = tt
Holds-IsReliable (file f) s (_, no_fault, readable) = (no_fault, readable)

pub save-Holds : (st : Storage) (s : PersistentState) → IsReliable st → Holds (save st s).0 s
unfolding save Holds
save-Holds (in_memory old) s r = refl
save-Holds (file f) s (no_fault, readable) = rw no_fault (refl, refl, readable)

load_file-FileHolds :
    (o : Option Bytes) (s : PersistentState) → Encodable s → FileHolds o s → load_file o ≡ ok s
unfolding FileHolds load_file
load_file-FileHolds none s e h = rw h refl
load_file-FileHolds (some bytes) s e h = rw h (decode-encode s e)

-- What a storage holds is what a restart loads, if the format can hold it.
pub load-Holds : (st : Storage) (s : PersistentState) → Encodable s → Holds st s → load st ≡ ok s
unfolding load Holds
load-Holds (in_memory old) s e h = rw h refl
load-Holds (file f) s e (h, _, readable) = rw readable (load_file-FileHolds f.path s e h)
