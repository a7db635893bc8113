-- ===== src/Registry/Memory.antt =====
-- The memory registry of registry_mem.go against a plain account of its history.
use byterpc.Common.{
  ◌≡◌, ◌∙◌, refl, ap, List, [], ◌∷◌, Option, none, some, if◌then◌else◌, Text, Dict, lookup, insert,
  erase, lookup-insert, lookup-erase, text_eq, same,
}
use byterpc.Service.{Endpoint}
use byterpc.Registry.{
  MemoryRegistry, new_memory_registry, memory_init, memory_register, memory_de_register,
  memory_de_register_all,
}

pub data Op : Type 0 where
  registers de_registers : Endpoint → Op
  de_registers_all inits : Op

unfoldable pub step : MemoryRegistry → Op → MemoryRegistry
step r (registers e) = (memory_register r e).0
step r (de_registers e) = memory_de_register r e
step r de_registers_all = memory_de_register_all r
step r inits = memory_init r

unfoldable pub run : MemoryRegistry → List Op → MemoryRegistry
unfolding step
run r [] = r
run r (o ∷ os) = run (step r o) os

abbrev pub cached : Text → MemoryRegistry → Option Endpoint
cached k r = elim r.cache [ none ↦ none | some d ↦ lookup k d ]

-- What a history leaves under a path: the endpoint of the last registration of that path, unless it
-- was taken out after it.
abbrev pub last : Text → Option Endpoint → List Op → Option Endpoint
last k before [] = before
last k before (registers e ∷ os) = last k (if same k e.path then some e else before) os
last k before (de_registers e ∷ os) = last k (if same k e.path then none else before) os
last k before (de_registers_all ∷ os) = last k none os
last k before (inits ∷ os) = last k none os

last_from :
    (k : Text) (d : Dict Text Endpoint) (os : List Op)
    → cached k (run (record { cache = some d }) os) ≡ last k (lookup k d) os
unfolding run memory_register memory_de_register memory_de_register_all memory_init
last_from k d [] = refl
last_from k d (registers e ∷ os) =
    last_from k (insert e.path e d) os ∙ ap (λ o. last k o os) (lookup-insert k e.path e d)
last_from k d (de_registers e ∷ os) =
    last_from k (erase e.path d) os ∙ ap (λ o. last k o os) (lookup-erase k e.path d)
last_from k d (de_registers_all ∷ os) = last_from k [] os
last_from k d (inits ∷ os) = last_from k [] os

-- After any history of a new memory registry that does not destroy it, what it holds under a path is
-- the endpoint of the last registration of that path, unless it was taken out after it.
pub cached-run : (k : Text) (os : List Op) → cached k (run new_memory_registry os) ≡ last k none os
cached-run k os = last_from k [] os
