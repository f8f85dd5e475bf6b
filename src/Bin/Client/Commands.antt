-- ===== src/Bin/Client/Commands.antt =====
-- bin/murmur.rs: every request can be written as a command line, whatever its key and value look like.
use murmur.Prelude.{◌≡◌, ◌≢◌, refl, List, [], ◌∷◌}
use murmur.Raft.Types.{Bytes}
use murmur.Service.State.{same_bytes}
use murmur.Bin.Text.{codes}
use murmur.Bin.Client.{Request, get, put, append, del, bad, request_of, parsed, parse_args}

abbrev pub verb : Request → Bytes
verb (get key) = codes "get"
verb (put key value) = codes "put"
verb (append key value) = codes "append"
verb (del key) = codes "del"
verb bad = []

abbrev pub operands : Request → List Bytes
operands (get key) = key ∷ []
operands (put key value) = key ∷ value ∷ []
operands (append key value) = key ∷ value ∷ []
operands (del key) = key ∷ []
operands bad = []

-- Whatever the key and the value of a request look like, flags included, and whichever nodes it is
-- for: its words, with those nodes before them or without them, are read as the request, for those
-- nodes or for the ones before.
pub parse_args-request :
    (before peers : Bytes) (r : Request)
    → r ≢ bad
    → (parse_args before (verb r ∷ operands r) ≡ parsed before (verb r ∷ operands r))
      × (parse_args before (codes "--peers" ∷ peers ∷ verb r ∷ operands r)
          ≡ parsed peers (verb r ∷ operands r))
      × (request_of (verb r) (operands r) ≡ r)
unfolding parse_args request_of same_bytes
parse_args-request before peers (get key) good = (refl, refl, refl)
parse_args-request before peers (put key value) good = (refl, refl, refl)
parse_args-request before peers (append key value) good = (refl, refl, refl)
parse_args-request before peers (del key) good = (refl, refl, refl)
parse_args-request before peers bad good = absurd (good refl)
