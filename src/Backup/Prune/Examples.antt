-- ===== src/Backup/Prune/Examples.antt =====
-- Tests of `prune` on a repository where a full backup `a`, its child `b` and an unfinished `f` go,
-- a held one `c` and a newer one `e` stay, and `d` does not read.
use nxgt_data.Prelude.{
  ℕ, ◌≡◌, refl, inl, inr, Bool, true, false, Option, none, some, String, str_eq, List, [], ◌∷◌, any,
  ltb, arith, In, if◌then◌else◌,
}
use nxgt_data.Backup.Rules.{
  Candidate, KeepPolicy, last, of_calendar, within, max_total_size, whole, by_rules, check_policy,
  good,
}
use nxgt_data.Backup.Policy.{
  plan, newest_first, sized, with_parents, total_size, may_drop, droppable, by_id,
}
use nxgt_data.Backup.Prune.{
  Key, manifest_key, Fetched, found, not_found, unread, lease_lost, locked, candidates_of,
  complete_ids, incomplete_ids, decided, prune_backups, read_one, of_manifest, standing_in,
  removing, check_options, bad_incomplete_after, good_after,
}
use nxgt_data.Backup.Prune.Safe.{left_keys, prune_whole, prune_spares, prune_parent}

opened : Unit {0}
unfolding plan newest_first sized with_parents total_size may_drop droppable by_id candidates_of
    complete_ids incomplete_ids decided prune_backups read_one of_manifest standing_in removing
    by_rules check_options check_policy good good_after
opened = tt

abbrev is_id : String → Bool
is_id id = any (λ x. str_eq x id) ("a" ∷ "b" ∷ "c" ∷ "d" ∷ "e" ∷ "f" ∷ [])

abbrev time_of : String → ℕ
time_of id = 4000

abbrev made : ℕ → Option String → Fetched
made at parent =
    found (record { created_at = at; catalog_size = 1; object_sizes = 2 ∷ 3 ∷ []; parent = parent })

abbrev fetch : String → Fetched
fetch id =
    if str_eq id "a"
    then made 1000 none
    else if str_eq id "b"
    then made 2000 (some "a")
    else if str_eq id "c"
    then made 1500 none
    else if str_eq id "e"
    then made 5000 none
    else if str_eq id "d"
    then unread none
    else not_found

abbrev one : KeepPolicy
one last = some 1
one (of_calendar _) = none
one within = none
one max_total_size = none

abbrev object : String → Key
object id = record { id = id; path = "objects/1" }

abbrev keys : List Key
keys =
    manifest_key "a"
    ∷ object "a"
    ∷ object "b"
    ∷ manifest_key "b"
    ∷ manifest_key "c"
    ∷ object "c"
    ∷ manifest_key "d"
    ∷ manifest_key "e"
    ∷ object "f"
    ∷ []

abbrev held : List String
held = "c" ∷ []

abbrev always : ℕ → Bool
always k = true

abbrev three_deletes : ℕ → Bool
three_deletes k = ltb k 3

whole_prune :
    (prune_backups is_id time_of fetch held one 9000 9000 100 false true always keys).0
    ≡ manifest_key "c" ∷ object "c" ∷ manifest_key "d" ∷ manifest_key "e" ∷ []
unfolding opened
whole_prune = refl

stopped_prune :
    prune_backups is_id time_of fetch held one 9000 9000 100 false true three_deletes keys ≡ (
      object "a"
          ∷ manifest_key "c"
          ∷ object "c"
          ∷ manifest_key "d"
          ∷ manifest_key "e"
          ∷ object "f"
          ∷ [],
      lease_lost,
    )
unfolding opened
stopped_prune = refl

held_elsewhere :
    prune_backups is_id time_of fetch held one 9000 9000 100 false false always keys
    ≡ (keys, locked)
unfolding opened
held_elsewhere = refl

too_soon :
    check_options 60000 (λ r. some (whole 1)) (some (whole 119999)) ≡ some bad_incomplete_after
unfolding opened
too_soon = refl

abbrev candidate_a : Candidate
candidate_a = record {
  id = "a";
  created_at = 1000;
  stored_size = 6;
  parent = none;
  held = false;
  stand_in = false;
}

abbrev candidate_b : Candidate
candidate_b = record {
  id = "b";
  created_at = 2000;
  stored_size = 6;
  parent = some "a";
  held = true;
  stand_in = false;
}

abbrev candidate_c : Candidate
candidate_c = record {
  id = "c";
  created_at = 1500;
  stored_size = 6;
  parent = none;
  held = false;
  stand_in = false;
}

abbrev candidate_d : Candidate
candidate_d = record {
  id = "d";
  created_at = 4000;
  stored_size = 0;
  parent = none;
  held = true;
  stand_in = true;
}

abbrev candidate_e : Candidate
candidate_e = record {
  id = "e";
  created_at = 5000;
  stored_size = 6;
  parent = none;
  held = false;
  stand_in = false;
}

abbrev all_candidates : List Candidate
all_candidates = candidate_a ∷ candidate_b ∷ candidate_c ∷ candidate_d ∷ candidate_e ∷ []

-- The child `b` is held instead: `c` goes, and `a` stays for it.
abbrev b_held : List String
b_held = "b" ∷ []

all_read :
    candidates_of is_id time_of fetch b_held (complete_ids is_id keys)
    ≡ some (all_candidates, "d" ∷ [])
unfolding opened
all_read = refl

first_left :
    In
      (manifest_key "b")
      (left_keys is_id time_of fetch b_held one 9000 9000 100 false true always keys)
unfolding opened
first_left = inr (inr (inr (inl refl)))

prune_parent_example :
    In
      (manifest_key "a")
      (left_keys is_id time_of fetch b_held one 9000 9000 100 false true always keys)
prune_parent_example =
    prune_parent is_id time_of fetch b_held one 9000 9000 100 false true always keys all_candidates
      ("d" ∷ []) all_read candidate_b candidate_a (inr (inl refl)) (inl refl) refl (omega arith)
      first_left

prune_whole_example :
    In (object "b") (left_keys is_id time_of fetch b_held one 9000 9000 100 false true always keys)
prune_whole_example =
    prune_whole is_id time_of fetch b_held one 9000 9000 100 false true always keys (object "b")
      (inr (inr (inl refl))) first_left

c_complete : In "c" (complete_ids is_id keys)
unfolding opened
c_complete = inr (inr (inl refl))

prune_spares_example :
    In (object "c") (left_keys is_id time_of fetch held one 9000 9000 100 false true always keys)
prune_spares_example =
    prune_spares is_id time_of fetch held one 9000 9000 100 false true always keys (object "c")
      (inr (inr (inr (inr (inr (inl refl)))))) c_complete (inl refl)
