-- ===== src/Raft/Storage.antt =====
-- The trait `RaftStorage` of raft/storage.rs and its two implementations. The file system is two
-- files; which call of a save fails is the next of `faults`, and an empty list is a file system that works.
pub mod Crash
pub mod PowerLoss
pub mod Holds
mod Runs
use murmur.Prelude.Result.{Result, ok, err}
use murmur.Prelude.{ℕ, Bool, Option, none, some, List, [], ◌∷◌, ◌≡◌, take, if◌then◌else◌}
use murmur.Raft.Types.{Bytes}
use murmur.Raft.StateFile
use murmur.Raft.StateFile.{PersistentState, Error, io_error, encode, decode}

-- A call of `FileStorage::save` that returns an error. `write n` has written n bytes before.
pub data Fault : Type 0 where
  create_dir create sync rename : Fault
  write : ℕ → Fault

pub record FileStorage : Type 0 where
  pub path : Option Bytes
  pub tmp : Option Bytes
  pub unreadable : Bool
  pub faults : List (Option Fault)

-- Dynamic dispatch: one constructor for each implementation.
pub data Storage : Type 0 where
  in_memory : PersistentState → Storage
  file : FileStorage → Storage

pub load_file : Option Bytes → Result Error PersistentState
load_file none = ok StateFile.default
load_file (some bytes) = decode bytes

unfoldable pub load : Storage → Result Error PersistentState
unfolding load_file
load (in_memory s) = ok s
load (file f) = if f.unreadable then err io_error else load_file f.path

-- The calls of `FileStorage::save`. `sync_dir` opens the directory and syncs it.
pub data Call : Type 0 where
  create_dir create sync rename sync_dir : Call
  write : Bytes → Call

unfoldable pub calls : PersistentState → List Call
calls s =
    Call.create_dir
    ∷ Call.create
    ∷ Call.write (encode s)
    ∷ Call.sync
    ∷ Call.rename
    ∷ Call.sync_dir
    ∷ []

-- One call, where this fault comes up. An error of the sync of the directory is dropped.
perform : Call → Option Fault → FileStorage → FileStorage × Result Error (Unit {0})
perform Call.create_dir (some Fault.create_dir) f = (f, err io_error)
perform Call.create_dir _ f = (f, ok tt)
perform Call.create (some Fault.create) f = (f, err io_error)
perform Call.create _ f = (record f { tmp = some [] }, ok tt)
perform (Call.write bytes) (some (Fault.write n)) f =
    (record f { tmp = some (take n bytes) }, err io_error)
perform (Call.write bytes) _ f = (record f { tmp = some bytes }, ok tt)
perform Call.sync (some Fault.sync) f = (f, err io_error)
perform Call.sync _ f = (f, ok tt)
perform Call.rename (some Fault.rename) f = (f, err io_error)
perform Call.rename _ f = (record f { path = f.tmp; tmp = none }, ok tt)
perform Call.sync_dir _ f = (f, ok tt)

-- `?` after each call.
perform_all : List Call → Option Fault → FileStorage → FileStorage × Result Error (Unit {0})
unfolding perform
perform_all [] fault f = (f, ok tt)
perform_all (call ∷ rest) fault f =
    let (g, result) = perform call fault f in
    let more = perform_all rest fault g in elim result [ ok done ↦ more | err e ↦ (g, err e) ]

next_fault : List (Option Fault) → Option Fault × List (Option Fault)
next_fault [] = (none, [])
next_fault (o ∷ os) = (o, os)

unfoldable pub save : Storage → PersistentState → Storage × Result Error (Unit {0})
unfolding perform_all calls next_fault
save (in_memory old) s = (in_memory s, ok tt)
save (file f) s =
    let (fault, later) = next_fault f.faults in
    let (g, result) = perform_all (calls s) fault (record f { faults = later }) in (file g, result)

-- No save and no load will fail.
abbrev pub IsReliable : Storage → Type 0
IsReliable (in_memory s) = Unit
IsReliable (file f) = (f.faults ≡ []) × (f.unreadable ≡ Bool.false)
