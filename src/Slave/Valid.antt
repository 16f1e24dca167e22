-- ===== src/Slave/Valid.antt =====
-- The object table of a slave (src/obj.cpp) under the requests of src/rest_slave.cpp.
use aistream.Base.{◌≡◌, Option, List, int_eq, All, Distinct, option}
use aistream.Platform.{Platform}
use aistream.Slave.{SlaveNode}
use aistream.Slave.Rest.{Event, manager_round}
use aistream.Pipeline.{AlgTask}
use aistream.Slave.Ends.{Tame}
use aistream.Slave.ObjIds.{obj_ids}

-- No two objects of the slave have one id.
abbrev pub IsValid : SlaveNode → Type 0
IsValid node = Distinct int_eq (obj_ids node.obj_vec)

-- The same, on a slave with these algorithms.
abbrev Good : List AlgTask → SlaveNode → Type 0
Good algs node = IsValid node × (node.alg_vec ≡ algs)

abbrev After : List AlgTask → Option SlaveNode → Type 0
After algs = option Unit (Good algs)

-- A round of ObjManager has fuel enough for the algorithms.
abbrev pub Enough : List AlgTask → Event → Type 0
Enough algs (manager_round fuel timeout now) = All (Tame fuel) algs
Enough algs _ = Unit
