-- ===== src/Cap/Verify/Chains.antt =====
-- Proofs about `verify_p3` of crates/rvm-cap/src/verify.rs: chains of derivations up to a root.
use rvm.Prelude.{
  ℕ, zero, suc, ◌≤◌, ◌<◌, ◌≡◌, ◌↔◌, ◌⊎◌, arith, true, none, some, ok, inl, inr, Bool-cases,
  Option-cases, ◌==◌, is_ok,
}
use rvm.Cap.Table.{CapabilityTable, lookup}
use rvm.Cap.Derivation.{DerivationTree, DerivationNode, find_parent}
use rvm.Cap.Derivation
use rvm.Cap.Verify.{walk_to_root, verify_p3}

-- The node `n` is `steps` derivations below a root: each parent is a valid node, less deep than its
-- child and of no later epoch.
pub data Chain (fuel : ℕ) (d : DerivationTree) : ℕ → DerivationNode → ℕ → Type 0 where
  root : {i : ℕ} {n : DerivationNode} → n.depth ≡ 0 → Chain fuel d i n 0
  link :
      {i p steps : ℕ} {n parent : DerivationNode}
      → find_parent fuel d i ≡ some (some p)
      → Derivation.get d p ≡ some parent
      → parent.depth < n.depth
      → parent.epoch ≤ n.epoch
      → Chain fuel d p parent steps
      → Chain fuel d i n (suc steps)

get_valid :
    (d : DerivationTree) (i : ℕ) (n : DerivationNode)
    → Derivation.get d i ≡ some n
    → n.is_valid ≡ true
unfolding Derivation.get
get_valid d i n h = ground arith

-- What a step of the walk that ends well has found.
walk_step :
    (fuel : ℕ) (d : DerivationTree) (left : ℕ) (n parent : DerivationNode) (i p : ℕ)
    → walk_to_root fuel d (suc left) n.depth n.epoch i ≡ some (ok tt)
    → find_parent fuel d i ≡ some (some p)
    → Derivation.get d p ≡ some parent
    → (parent.depth < n.depth)
      × (parent.epoch ≤ n.epoch)
      × ((parent.depth ≡ 0) ⊎ (walk_to_root fuel d left parent.depth parent.epoch p ≡ some (ok tt)))
unfolding walk_to_root
walk_step fuel d left n parent i p h up at = ground arith

-- A walk that ends well has gone up a chain.
walk_sound :
    (fuel : ℕ) (d : DerivationTree) (left : ℕ) (n : DerivationNode) (i : ℕ)
    → walk_to_root fuel d left n.depth n.epoch i ≡ some (ok tt)
    → (steps : ℕ) × (steps ≤ left) × Chain fuel d i n steps
unfolding walk_to_root
walk_sound fuel d zero n i h = absurd (ground (arith, h))
walk_sound fuel d (suc left) n i h = elim (Option-cases (find_parent fuel d i)) [
  | inl out ↦ absurd (ground (arith, h, out))
  | inr (none, lost) ↦ absurd (ground (arith, h, lost))
  | inr (some p, up) ↦ elim (Option-cases (Derivation.get d p)) [
    | inl gone ↦ absurd (ground (arith, h, up, gone))
    | inr (parent, at) ↦
        let (shallower, older, more) = walk_step fuel d left n parent i p h up at in
        elim more [
          | inl top ↦ (1, omega arith, link up at shallower older (root top))
          | inr rest ↦
              let (steps, le, chain) = walk_sound fuel d left parent p rest in
              (suc steps, omega (arith, le), link up at shallower older chain)
        ]
  ]
]

-- A chain that is short enough is walked up to its end.
walk_complete :
    (fuel : ℕ) (d : DerivationTree) (left : ℕ) (n : DerivationNode) (i steps : ℕ)
    → Chain fuel d i n (suc steps)
    → steps < left
    → walk_to_root fuel d left n.depth n.epoch i ≡ some (ok tt)
unfolding walk_to_root
walk_complete fuel d zero n i steps c h = absurd (omega arith)
walk_complete fuel d (suc left) n i zero
      (link {p = p} {parent = parent} up at shallower older (root top)) h =
    ground (arith, up, at, get_valid d p parent at)
walk_complete fuel d (suc left) n i (suc steps)
      (link {p = p} {parent = parent} up at shallower older c) h =
    let rest = walk_complete fuel d left parent p steps c (omega arith) in
    ground (arith, up, at, get_valid d p parent at, rest)

p3_sound :
    (fuel : ℕ) (t : CapabilityTable) (d : DerivationTree) (i g max_depth : ℕ)
    → verify_p3 fuel t d i g max_depth ≡ some (ok tt)
    → (n : DerivationNode) × (steps : ℕ) × (is_ok (lookup t i g) ≡ true)
      × (Derivation.get d i ≡ some n)
      × (steps ≤ max_depth)
      × Chain fuel d i n steps
unfolding verify_p3
p3_sound fuel t d i g max_depth h = elim (Option-cases (Derivation.get d i)) [
  | inl gone ↦ absurd (ground (arith, h, gone))
  | inr (n, at) ↦
      let found : is_ok (lookup t i g) ≡ true = ground (arith, h) in
      elim (Bool-cases (n.depth == 0)) [
        | inl top ↦ (n, 0, found, at, omega arith, root (ground (arith, top)))
        | inr below ↦
            let (steps, le, chain) =
              walk_sound fuel d max_depth n i (ground (arith, h, at, below)) in
            (n, steps, found, at, le, chain)
      ]
]

p3_complete :
    (fuel : ℕ) (t : CapabilityTable) (d : DerivationTree) (i g max_depth : ℕ) (n : DerivationNode)
    (steps : ℕ)
    → is_ok (lookup t i g) ≡ true
    → Derivation.get d i ≡ some n
    → steps ≤ max_depth
    → Chain fuel d i n steps
    → verify_p3 fuel t d i g max_depth ≡ some (ok tt)
unfolding verify_p3
p3_complete fuel t d i g max_depth n zero found at le (root top) =
    ground (arith, found, at, get_valid d i n at)
p3_complete fuel t d i g max_depth n (suc steps) found at le (link up higher shallower older c) =
    let walk =
      walk_complete fuel d max_depth n i steps (link up higher shallower older c) (omega arith) in
    ground (arith, found, at, get_valid d i n at, walk)

-- P3 accepts a handle exactly when it reads a capability whose node is a root, or is the end of a
-- chain of at most `max_depth` derivations from one. The walk of `find_parent` has the same fuel in
-- both.
pub verify_p3_iff :
    (fuel : ℕ) (t : CapabilityTable) (d : DerivationTree) (i g max_depth : ℕ)
    → (verify_p3 fuel t d i g max_depth ≡ some (ok tt)) ↔ (
        (n : DerivationNode) × (steps : ℕ) × (is_ok (lookup t i g) ≡ true)
        × (Derivation.get d i ≡ some n)
        × (steps ≤ max_depth)
        × Chain fuel d i n steps)
verify_p3_iff fuel t d i g max_depth = (
  p3_sound fuel t d i g max_depth,
  λ (n, steps, found, at, le, chain). p3_complete fuel t d i g max_depth n steps found at le chain,
)
