-- ===== src/Backup/Chain/Examples.antt =====
-- A chain of three backups, the oldest one full.
use nxgt_data.Prelude.{◌≡◌, refl, none, some, String, str_eq, List, [], ◌∷◌, if◌then◌else◌}
use nxgt_data.Backup.Chain.{Link, Fetch, got, gone, chain, chain_of, parent_missing}

opened : Unit {0}
unfolding chain_of
opened = tt

abbrev link_a : Link
link_a = record { id = "a"; parent = none }

abbrev link_b : Link
link_b = record { id = "b"; parent = some "a" }

abbrev link_c : Link
link_c = record { id = "c"; parent = some "b" }

abbrev fetch : String → Fetch
fetch p = if str_eq p "a" then got link_a else if str_eq p "b" then got link_b else gone

abbrev stored : List String
stored = "a" ∷ "b" ∷ []

walked : chain_of fetch stored link_c ≡ chain (link_c ∷ link_b ∷ link_a ∷ [])
unfolding opened
walked = refl

orphan : chain_of fetch stored (record { id = "e"; parent = some "d" }) ≡ parent_missing
unfolding opened
orphan = refl
