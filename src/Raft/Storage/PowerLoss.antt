-- ===== src/Raft/Storage/PowerLoss.antt =====
-- raft/storage.rs: what a loss of power leaves of `FileStorage::save`, on a disk that may keep any of
-- what was not synced.
use murmur.Prelude.{◌≡◌, ◌⊎◌, Bool, true, false, Option, none, some, List, [], ◌∷◌}
use murmur.Raft.Types.{Bytes}
use murmur.Raft.Storage.{Call}

pub record File : Type 0 where
  pub content : Bytes
  pub synced : Bool

-- The file of the path in each directory that the disk may still have, the latest first, and the
-- temporary file.
pub record Disk : Type 0 where
  pub entries : List (Option File)
  pub tmp : Option File

abbrev sync_file : Option File → Option File
sync_file none = none
sync_file (some file) = some (record file { synced = true })

abbrev latest : List (Option File) → List (Option File)
latest [] = []
latest (e ∷ es) = e ∷ []

-- What a call documents: only a sync makes sure that a content, or an entry of a directory, lasts.
unfoldable pub effect : Call → Disk → Disk
effect Call.create_dir d = d
effect Call.create d = record d { tmp = some (record { content = []; synced = false }) }
effect (Call.write bytes) d = record d { tmp = some (record { content = bytes; synced = false }) }
effect Call.sync d = record d { tmp = sync_file d.tmp }
effect Call.rename d = record { entries = d.tmp ∷ d.entries; tmp = none }
effect Call.sync_dir d = record d { entries = latest d.entries }

unfoldable pub effects : List Call → Disk → Disk
effects [] d = d
effects (call ∷ rest) d = effects rest (effect call d)

-- The content of a file may be anything until it is synced.
abbrev Keeps : Bool → Bytes → Option Bytes → Type 0
Keeps true content b = b ≡ some content
Keeps false content b = Unit

abbrev Left : Option File → Option Bytes → Type 0
Left none b = b ≡ none
Left (some file) b = Keeps file.synced file.content b

-- The content of the path after a loss of power may be this.
abbrev pub Survives : List (Option File) → Option Bytes → Type 0
Survives [] b = ⊥
Survives (e ∷ es) b = Left e b ⊎ Survives es b
