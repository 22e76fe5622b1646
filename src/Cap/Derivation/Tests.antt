-- ===== src/Cap/Derivation/Tests.antt =====
-- Tests of crates/rvm-cap/src/derivation.rs. A root at 0 with a child at 1, in a tree of three
-- nodes.
use rvm.Prelude.{ℕ, ◌≡◌, ◌<◌, refl, some, ok, arith}
use rvm.Cap.Error.{CapResult}
use rvm.Cap.Table.{CapabilityTable}
use rvm.Cap.Table
use rvm.Types.Capability.{region}
use rvm.Cap.Derivation.{DerivationTree, new, node, add_root, add_child, revoke_capability}
use rvm.Cap.Derivation.Ranks.{IsRanked, IsUnlinked, rank_with, add_child-IsRanked}
use rvm.Cap.Derivation.Walks.{pow2, revoke_capability_total}

abbrev rooted : DerivationTree
rooted = (add_root (new 3) 0 0).0

abbrev family : DerivationTree
family = (add_child rooted 0 1 1 0).0

abbrev flat : ℕ → ℕ
flat i = 0

rooted-IsRanked : IsRanked flat rooted.nodes
unfolding add_root new
rooted-IsRanked = ground arith

rooted-IsUnlinked : IsUnlinked rooted.nodes 1
unfolding add_root new
rooted-IsUnlinked = ground arith

is_added : add_child rooted 0 1 1 0 ≡ (family, ok tt)
unfolding add_child add_root new
is_added = refl

add_child-IsRanked_example :
    IsRanked (rank_with rooted.nodes flat 1 (node rooted.nodes 0).first_child) family.nodes
add_child-IsRanked_example =
    add_child-IsRanked rooted family 0 1 1 0 flat rooted-IsRanked rooted-IsUnlinked (omega arith)
      is_added

abbrev a_table : CapabilityTable
a_table =
    (Table.insert_root (Table.new 3)
      (record { id = 1; cap_type = region; rights = 0x41; epoch = 0 }) 7 0).0

enough : pow2 (rank_with rooted.nodes flat 1 (node rooted.nodes 0).first_child 0) < 5
unfolding pow2 add_root new
enough = omega arith

revoke_capability_total_example :
    (r : CapabilityTable × DerivationTree × CapResult ℕ) × (revoke_capability 5 a_table family 0 1
      ≡ some r)
revoke_capability_total_example =
    revoke_capability_total 5 a_table family
      (rank_with rooted.nodes flat 1 (node rooted.nodes 0).first_child) 0 1
      add_child-IsRanked_example enough
