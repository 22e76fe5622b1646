-- ===== src/Cap/Manager/Reuse.antt =====
-- Proofs about `revoke_capability` of crates/rvm-cap/src/revoke.rs, where the slot of a revoked
-- capability was used again and the tree still links to it.
use rvm.Prelude.{
  ℕ, zero, suc, ◌<◌, ◌≡◌, ◌≢◌, refl, true, ◌&&◌, ltb, if◌then◌else◌, none, List, [], ◌∷◌, ok, arith,
  u32_max, length, is_ok,
}
use rvm.Cap.Table.{CapabilityTable, lookup}
use rvm.Cap.Derivation.{
  DerivationNode, DerivationTree, node, add_child, push_children, collect_loop, collect_subtree,
  revoke_capability,
}
use rvm.Cap.Derivation.Ranks.{regrant_node}

-- The walk along the siblings of a node that is its own next sibling never ends.
push_children-loop :
    (fuel : ℕ) (nodes : List DerivationNode) (child : ℕ) (stack : List ℕ)
    → child < length nodes
    → child ≢ u32_max
    → (node nodes child).next_sibling ≡ child
    → push_children fuel nodes child stack ≡ none
unfolding push_children
push_children-loop zero nodes child stack lt ne e = refl
push_children-loop (suc fuel) nodes child stack lt ne e =
    let stack1 =
      if (node nodes child).is_valid && ltb (length stack) (length nodes)
      then child ∷ stack
      else stack in
    rw e (ground (arith, push_children-loop fuel nodes child stack1 lt ne e))

collect_subtree-loop :
    (fuel : ℕ) (d : DerivationTree) (index : ℕ)
    → index < length d.nodes
    → (node d.nodes index).is_valid ≡ true
    → (node d.nodes index).first_child < length d.nodes
    → (node d.nodes index).first_child ≢ u32_max
    → (node d.nodes (node d.nodes index).first_child).next_sibling
      ≡ (node d.nodes index).first_child
    → collect_subtree fuel d index ≡ none
unfolding collect_subtree collect_loop
collect_subtree-loop zero d index lt v inside ne e = refl
collect_subtree-loop (suc fuel) d index lt v inside ne e =
    ground (arith, push_children-loop fuel d.nodes (node d.nodes index).first_child [] inside ne e)

-- Where a capability is derived into the slot that still stands first among the children of its
-- parent, because an earlier child of the same parent was revoked from it, the new node becomes its
-- own sibling, and revoking the parent never returns: no amount of fuel gives a result.
pub revoke-diverges :
    (d d' : DerivationTree) (parent child depth epoch : ℕ) (t : CapabilityTable)
    (generation fuel : ℕ)
    → (node d.nodes parent).first_child ≡ child
    → child ≢ parent
    → child ≢ u32_max
    → add_child d parent child depth epoch ≡ (d', ok tt)
    → is_ok (lookup t parent generation) ≡ true
    → revoke_capability fuel t d' parent generation ≡ none
unfolding revoke_capability
revoke-diverges d d' parent child depth epoch t generation fuel first apart ne added found =
    let (inside, child_inside, valid, head, loop) =
      regrant_node d d' parent child depth epoch first apart added in
    let stuck =
      collect_subtree-loop fuel d' parent inside valid (rw head child_inside) (rw head ne)
        (rw (head, loop)) in
    ground (arith, stuck)
