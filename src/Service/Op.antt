-- ===== src/Service/Op.antt =====
-- The enumeration `Op` of proto/kv.proto, as prost represents it.
use murmur.Prelude.{ℕ, Bool, true, false, Option, none, some, if◌then◌else◌, ◌==◌}

pub data Op : Type 0 where
  get put delete append : Op

-- `op as i32`
abbrev pub op_code : Op → ℕ
op_code Op.get = 0
op_code Op.put = 1
op_code Op.delete = 2
op_code Op.append = 3

-- `Op::try_from`
unfoldable pub try_from : ℕ → Option Op
try_from n =
    if n == 0
    then some Op.get
    else if n == 1
    then some Op.put
    else if n == 2
    then some Op.delete
    else if n == 3
    then some Op.append
    else none

-- `matches!(op, Ok(Op::Put) | Ok(Op::Delete) | Ok(Op::Append))`
abbrev pub is_mutation : Option Op → Bool
is_mutation (some Op.put) = true
is_mutation (some Op.delete) = true
is_mutation (some Op.append) = true
is_mutation _ = false
