-- ===== src/Tests/Copies.antt =====
-- Copies of a host's entry into a buffer, and the table of exception states.
use event_loop.Exceptions.{unused_state, init_states, findstate, thrown, jumps_to_null, sighandler}
use event_loop.Exceptions.Bag.{takes_state, gives_back, do_ops, states_of, do_ops-refines}
use event_loop.Exceptions.Nested.{inner_run, sighandler-nested}
use event_loop.HostCopy.{HostEnt, out_of_range, duplicated, dup_hostentry}
use event_loop.HostCopy.Layout.{Chain, parts, FitsPiece, FitsArray, dup_hostentry-apart}
use event_loop.HostCopy.Size.{copy_of, dup_hostentry_lem}
use event_loop.Prelude.{All, ℕ, ◌<◌, ◌≡◌, refl, ◌↔◌, true, none, some, [], ◌∷◌, arith}

-- Two addresses, one alias, and a name.
abbrev two_addresses : HostEnt
two_addresses = record {
  host_name = 104 ∷ 111 ∷ [];
  h_aliases = some ((97 ∷ []) ∷ []);
  is_inet = true;
  h_stride = 4;
  addr_list = (10 ∷ 0 ∷ 0 ∷ 1 ∷ []) ∷ (10 ∷ 0 ∷ 0 ∷ 2 ∷ []) ∷ [];
}

-- 37 bytes are needed: one more is enough.
dup_hostentry_lem_example : dup_hostentry 4 38 two_addresses ≡ duplicated (copy_of 4 two_addresses)
dup_hostentry_lem_example = dup_hostentry_lem 4 38 two_addresses refl

fits_test : dup_hostentry 4 38 two_addresses ≡ duplicated (copy_of 4 two_addresses)
unfolding dup_hostentry
fits_test = refl

too_small_test : dup_hostentry 4 37 two_addresses ≡ out_of_range
unfolding dup_hostentry
too_small_test = refl

dup_hostentry-apart_example :
    Chain 0 (parts (copy_of 4 two_addresses)) 37
    × (37 < 38)
    × FitsArray 4 (copy_of 4 two_addresses).address_array
    × All FitsPiece (copy_of 4 two_addresses).addresses_at
    × FitsArray 4 (copy_of 4 two_addresses).alias_array
    × All FitsPiece (copy_of 4 two_addresses).aliases_at
    × FitsPiece (copy_of 4 two_addresses).name_at
dup_hostentry-apart_example =
    dup_hostentry-apart 4 38 two_addresses (copy_of 4 two_addresses)
      (refl, omega arith, omega arith, ((97 ∷ []) ∷ [], refl)) fits_test

-- Thread 7 takes two states and gives one back.
do_ops-refines_example :
    (states_of 7
        (do_ops (takes_state 7 ∷ takes_state 8 ∷ takes_state 7 ∷ gives_back 7 ∷ []) init_states)
      ≡ 1)
    × ((findstate 7
            (do_ops (takes_state 7 ∷ takes_state 8 ∷ takes_state 7 ∷ gives_back 7 ∷ []) init_states)
          ≡ none)
        ↔ (◌≡◌ {A = ℕ} 1 0))
do_ops-refines_example =
    do_ops-refines (takes_state 7 ∷ takes_state 8 ∷ takes_state 7 ∷ gives_back 7 ∷ []) 7
      (refl, (refl, (refl, (refl, tt)))) refl

sighandler-nested_example :
    (sighandler 7 11 (record { pid = 7; penv = 100 } ∷ unused_state ∷ []) ≡ thrown 100 11)
    × (sighandler 7 11 (inner_run 7 (record { pid = 7; penv = 100 } ∷ unused_state ∷ []))
        ≡ jumps_to_null)
sighandler-nested_example =
    sighandler-nested 7 100 11 (unused_state ∷ []) refl refl refl (omega arith)
