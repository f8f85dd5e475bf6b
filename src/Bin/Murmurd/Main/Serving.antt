-- ===== src/Bin/Murmurd/Main/Serving.antt =====
-- bin/murmurd.rs: from a command line to a node that serves.
use murmur.Raft.Config
use murmur.Raft.Storage
use murmur.Service.Store
use murmur.Service.Requests
use murmur.Service.Requests.{Inner}
use murmur.Service.Start
