-- ===== src/Mpt/Get/Behind.antt =====
-- Lookups behind a prefix, where the node there answers one key anew.
use sp1_reth.Prelude.{◌≡◌, refl, List, ℕ, Option, none, some, false, list_eq, if◌then◌else◌}
use sp1_reth.Mpt.Node.{MptNode}
use sp1_reth.Mpt.Get.{Lookup, behind, get_internal}

pub behind_at :
    (rest : List ℕ) (n n' : MptNode) (answer : Lookup) (o : Option (List ℕ))
    → ((t : List ℕ)
        → o ≡ some t
        → get_internal n' t ≡ (if list_eq rest t then answer else get_internal n t))
    → behind (get_internal n') o ≡ (
        if elim o [ none ↦ false | some t ↦ list_eq rest t ]
        then answer
        else behind (get_internal n) o)
behind_at rest n n' answer none h = refl
behind_at rest n n' answer (some t) h = h t refl
