-- ===== src/Backup/Lock/Examples.antt =====
-- A run of two writers with a lease of 10 ms: `b` comes when the lock of `a`, which stopped, is stale.
use nxgt_data.Prelude.{
  ℕ, ◌≡◌, ◌≢◌, refl, inl, inr, true, false, none, some, String, str_eq, eq_iff, [], ◌∷◌, In,
  Bool-cases, arith,
}
use nxgt_data.Backup.Lock.{
  expires, still_held, held, renewed, writing, landed, looking, forgetting, holding, nothing, sets,
  apply, Move, System, moved, initial, Reaches,
}
use nxgt_data.Backup.Lock.Alive.{not_same, differs}
use nxgt_data.Backup.Lock.Exclusive.{lease-exclusive}

opened : Unit {0}
unfolding apply still_held renewed
opened = tt

abbrev no_skew : String → ℕ
no_skew w = 0

abbrev a_started : System
a_started = moved (initial 0) "a" (writing 10 10) nothing

abbrev a_landed : System
a_landed = moved a_started "a" (landed 10) (sets "a" (some (expires 10)))

abbrev a_looks : System
a_looks = moved a_landed "a" (looking 0 10 []) nothing

abbrev a_holds : System
a_holds = moved a_looks "a" (holding 10 none) nothing

abbrev a_stopped : System
a_stopped = record { time = 30; files = a_holds.files; writers = a_holds.writers }

abbrev b_started : System
b_started = moved a_stopped "b" (writing 40 40) nothing

abbrev b_landed : System
b_landed = moved b_started "b" (landed 40) (sets "b" (some (expires 40)))

abbrev b_looks : System
b_looks = moved b_landed "b" (looking 30 40 ("a" ∷ [])) nothing

abbrev b_forgets : System
b_forgets = moved b_looks "b" (forgetting 30 40 "a" []) nothing

abbrev b_forgot : System
b_forgot = moved b_forgets "b" (looking 30 40 []) (sets "a" none)

abbrev b_holds : System
b_holds = moved b_forgot "b" (holding 40 none) nothing

b_not_a : ◌≢◌ {A = String} "b" "a"
b_not_a = differs refl

a_not_b : ◌≢◌ {A = String} "a" "b"
a_not_b = differs refl

nothing_else : (id : String) → ◌≢◌ {A = String} id "a" → a_landed.files id ≢ none → In id []
unfolding opened
nothing_else id n there = there (let e = not_same n in rw e)

only_a : (id : String) → ◌≢◌ {A = String} id "b" → b_landed.files id ≢ none → In id ("a" ∷ [])
unfolding opened
only_a id n there = elim (Bool-cases (str_eq id "a")) [
  | inl same ↦ inl ((eq_iff id "a").0 same)
  | inr other ↦ absurd (there (let e = not_same n in rw (e, other)))
]

a_reached : Reaches 10 no_skew a_holds
a_reached =
    Reaches.moves a_looks "a" (holding 10 none) nothing
      (Reaches.moves a_landed "a" (looking 0 10 []) nothing
        (Reaches.moves a_started "a" (landed 10) (sets "a" (some (expires 10)))
          (Reaches.moves (initial 0) "a" (writing 10 10) nothing (Reaches.begins 0) Move.starts)
          (Move.lands 10 10))
        (Move.lists 10 [] nothing_else))
      (Move.acquires 0 10)

a_is_stale : b_looks.files "a" ≡ some (expires 10)
unfolding opened
a_is_stale = refl

stale : still_held 10 30 (some (expires 10)) ≡ false
unfolding opened
stale = refl

still_fresh : still_held 10 20 (some (expires 10)) ≡ true
unfolding opened
still_fresh = refl

b_reached : Reaches 10 no_skew b_holds
b_reached =
    Reaches.moves b_forgot "b" (holding 40 none) nothing
      (Reaches.moves b_forgets "b" (looking 30 40 []) (sets "a" none)
        (Reaches.moves b_looks "b" (forgetting 30 40 "a" []) nothing
          (Reaches.moves b_landed "b" (looking 30 40 ("a" ∷ [])) nothing
            (Reaches.moves b_started "b" (landed 40) (sets "b" (some (expires 40)))
              (Reaches.moves a_stopped "b" (writing 40 40) nothing
                (Reaches.waits a_holds 30 a_reached (omega arith)) Move.starts)
              (Move.lands 40 40))
            (Move.lists 40 ("a" ∷ []) only_a))
          (Move.finds_stale 30 40 "a" [] (expires 10) a_not_b a_is_stale stale))
        (Move.forgets 30 40 "a" []))
      (Move.acquires 30 40)

lease-exclusive_example : held 30 10 ≡ false
lease-exclusive_example =
    lease-exclusive 10 no_skew (λ v w. omega arith) b_holds b_reached "b" "a" 40 10 none none
      b_not_a refl refl refl
