-- ===== src/Cap/Derivation/Walks.antt =====
-- Proofs about `collect_subtree` and `revoke_subtree` of crates/rvm-cap/src/derivation.rs: the
-- fuel of their walks. An index of rank `r` on the stack stands for at most 2ʳ rounds, and the
-- fuel of a round is also that of the walk along the siblings inside it.
use rvm.Prelude.{
  ℕ, zero, suc, ◌+◌, ◌-◌, ◌≤◌, ◌<◌, ◌≡◌, refl, sym, subst, inl, inr, false, Bool, not, ◌&&◌, ◌||◌,
  some, List, [], ◌∷◌, ◌++◌, arith, u32_max, length, set, get_or-set_self, get_or-set_ne,
  length-set, ltb, leb, ◌==◌, if◌then◌else◌, ℕ_discrete, Bool-cases, some_of_ne_none, replicate,
}
use rvm.Cap.Derivation.{
  DerivationNode, DerivationTree, empty_node, node, push_children, collect_loop, collect_subtree,
  revoke_loop, revoke_subtree, revoke, revoke_capability,
}
use rvm.Cap.Error.{CapResult}
use rvm.Cap.Table.{CapabilityTable}
use rvm.Cap.Derivation.Ranks.{IsLink, Falls, IsRanked}

unfoldable pub pow2 : ℕ → ℕ
pow2 zero = 1
pow2 (suc n) = pow2 n + pow2 n

lt-pow2 : (n : ℕ) → n < pow2 n
unfolding pow2
lt-pow2 zero = omega arith
lt-pow2 (suc n) = omega (arith, lt-pow2 n)

pow2_mono : (m n : ℕ) → m ≤ n → pow2 m ≤ pow2 n
unfolding pow2
pow2_mono zero zero h = omega arith
pow2_mono zero (suc n) h = omega (arith, pow2_mono zero n (omega arith))
pow2_mono (suc m) zero h = absurd (omega arith)
pow2_mono (suc m) (suc n) h = omega (arith, pow2_mono m n (omega arith))

weight : (ℕ → ℕ) → List ℕ → ℕ
weight rank [] = 0
weight rank (i ∷ is) = pow2 (rank i) + weight rank is

pow2-suc : (n : ℕ) → pow2 (suc n) ≡ pow2 n + pow2 n
unfolding pow2
pow2-suc n = refl

weight_room :
    (rank : ℕ → ℕ) (i : ℕ) (is : List ℕ) (b : Bool)
    → weight rank (if b then i ∷ is else is) ≤ pow2 (rank i) + weight rank is
unfolding weight
weight_room rank i is b = ground arith

-- The walk along the siblings ends, and what it pushes weighs less than its parent.
push_children_total :
    (fuel : ℕ) (nodes : List DerivationNode) (rank : ℕ → ℕ) (child : ℕ) (stack : List ℕ) (r : ℕ)
    → IsRanked rank nodes
    → (IsLink (length nodes) child → rank child < r)
    → r < fuel
    → (stack' : List ℕ) × (push_children fuel nodes child stack ≡ some stack')
      × (weight rank stack' < weight rank stack + pow2 r)
unfolding push_children weight
push_children_total zero nodes rank child stack r ranked below h = absurd (omega arith)
push_children_total (suc fuel) nodes rank child stack r ranked below h =
    elim (Bool-cases (child == u32_max)) [
      | inl e ↦ (stack, rw e, omega (arith, lt-pow2 r))
      | inr e ↦ elim (Bool-cases (leb (length nodes) child)) [
        | inl f ↦ (stack, rw (e, f), omega (arith, lt-pow2 r))
        | inr f ↦
            let lt = below (ground arith, ground arith) in
            let stack1 =
              if (node nodes child).is_valid && ltb (length stack) (length nodes)
              then child ∷ stack
              else stack in
            let rest =
              push_children_total fuel nodes rank (node nodes child).next_sibling stack1
                (rank child) ranked (ranked child (ground arith)).1 (omega arith) in
            (
              rest.0,
              rw (e, f) rest.1,
              omega (
                arith,
                rest.2,
                weight_room rank child stack
                    ((node nodes child).is_valid && ltb (length stack) (length nodes)),
                pow2-suc (rank child),
                pow2_mono (suc (rank child)) r lt,
              ),
            )
      ]
    ]

-- A walk that leaves links as they are keeps the ranks.
invalid-IsRanked :
    (nodes : List DerivationNode) (rank : ℕ → ℕ) (i : ℕ)
    → IsRanked rank nodes
    → let n : DerivationNode = node nodes i in
      IsRanked rank (set nodes i (record n { is_valid = false }))
invalid-IsRanked nodes rank i ranked j lt = elim (ℕ_discrete i j) [
  | yes e ↦
      subst (λ k. Falls (length nodes') rank k (node nodes' k)) e
        (subst (Falls (length nodes') rank i)
          (sym (get_or-set_self nodes i n' empty_node (omega (arith, e, length-set nodes i n'))))
          (subst (λ l. Falls l rank i (node nodes i)) (sym (length-set nodes i n'))
            (ranked i (omega (arith, e, length-set nodes i n')))))
  | no ne ↦ subst (Falls (length nodes') rank j) (sym (get_or-set_ne nodes i j n' empty_node ne)) (
      subst (λ l. Falls l rank j (node nodes j)) (sym (length-set nodes i n'))
        (ranked j (omega (arith, length-set nodes i n'))))
]
  where
    n : DerivationNode
    n = node nodes i

    n' : DerivationNode
    n' = record n { is_valid = false }

    nodes' : List DerivationNode
    nodes' = set nodes i n'

collect_loop_total :
    (fuel : ℕ) (nodes : List DerivationNode) (rank : ℕ → ℕ) (stack result : List ℕ)
    → IsRanked rank nodes
    → weight rank stack < fuel
    → (found : List ℕ) × (collect_loop fuel nodes stack result ≡ some found)
unfolding collect_loop weight
collect_loop_total zero nodes rank stack result ranked h = absurd (omega arith)
collect_loop_total (suc fuel) nodes rank [] result ranked h = (result, refl)
collect_loop_total (suc fuel) nodes rank (current ∷ stack) result ranked h =
    elim (Bool-cases (leb (length nodes) current || not (node nodes current).is_valid)) [
      | inl e ↦
          let rest =
            collect_loop_total fuel nodes rank stack result ranked
              (omega (arith, lt-pow2 (rank current))) in
          (rest.0, rw e rest.1)
      | inr e ↦
          let pushed =
            push_children_total fuel nodes rank (node nodes current).first_child stack
              (rank current) ranked (ranked current (ground arith)).0
              (omega (arith, lt-pow2 (rank current))) in
          let rest =
            collect_loop_total fuel nodes rank pushed.0
              (if ltb (length result) (length nodes) then result ++ current ∷ [] else result) ranked
              (omega (arith, pushed.2)) in
          (rest.0, rw e (rw pushed.1 rest.1))
    ]

revoke_loop_total :
    (fuel : ℕ) (d : DerivationTree) (rank : ℕ → ℕ) (stack : List ℕ) (done : ℕ)
    → IsRanked rank d.nodes
    → weight rank stack < fuel
    → (r : DerivationTree × ℕ) × (revoke_loop fuel d stack done ≡ some r)
unfolding revoke_loop weight
revoke_loop_total zero d rank stack done ranked h = absurd (omega arith)
revoke_loop_total (suc fuel) d rank [] done ranked h = ((d, done), refl)
revoke_loop_total (suc fuel) d rank (current ∷ stack) done ranked h =
    elim (Bool-cases (leb (length d.nodes) current || not (node d.nodes current).is_valid)) [
      | inl e ↦
          let rest =
            revoke_loop_total fuel d rank stack done ranked
              (omega (arith, lt-pow2 (rank current))) in
          (rest.0, rw e rest.1)
      | inr e ↦
          let n : DerivationNode = node d.nodes current in
          let nodes' = set d.nodes current (record n { is_valid = false }) in
          let ranked' = invalid-IsRanked d.nodes rank current ranked in
          let pushed =
            push_children_total fuel nodes' rank (node nodes' current).first_child stack
              (rank current) ranked'
              (ranked' current
                (ground (arith, length-set d.nodes current (record n { is_valid = false })))).0
              (omega (arith, lt-pow2 (rank current))) in
          let rest =
            revoke_loop_total fuel (record { nodes = nodes'; count = d.count - 1 }) rank pushed.0
              (done + 1) ranked' (omega (arith, pushed.2)) in
          (rest.0, rw e (rw pushed.1 rest.1))
    ]

collect_subtree_total :
    (fuel : ℕ) (d : DerivationTree) (rank : ℕ → ℕ) (index : ℕ)
    → IsRanked rank d.nodes
    → pow2 (rank index) < fuel
    → (found : List ℕ) × (collect_subtree fuel d index ≡ some found)
unfolding collect_subtree weight
collect_subtree_total fuel d rank index ranked h =
    let start =
      if ltb index (length d.nodes) && (node d.nodes index).is_valid then index ∷ [] else [] in
    let walk = collect_loop_total fuel d.nodes rank start [] ranked (
      omega (
        arith,
        weight_room rank index [] (ltb index (length d.nodes) && (node d.nodes index).is_valid),
      )) in
    (walk.0 ++ replicate (length d.nodes - length walk.0) u32_max, rw (walk.1, collect_subtree))

revoke_tree_total :
    (fuel : ℕ) (d : DerivationTree) (rank : ℕ → ℕ) (index : ℕ)
    → IsRanked rank d.nodes
    → pow2 (rank index) < fuel
    → (r : DerivationTree × CapResult ℕ) × (revoke fuel d index ≡ some r)
unfolding revoke revoke_subtree weight
revoke_tree_total fuel d rank index ranked h =
    let walk = revoke_loop_total fuel d rank (index ∷ []) 0 ranked (omega arith) in
    some_of_ne_none (revoke fuel d index) (ground (arith, walk.1))

-- On a tree without circles the revocation of a capability ends and returns a result, whatever
-- handle it is asked for: fuel above two to the power of the rank of the index is enough for all its
-- loops.
pub revoke_capability_total :
    (fuel : ℕ) (t : CapabilityTable) (d : DerivationTree) (rank : ℕ → ℕ) (index generation : ℕ)
    → IsRanked rank d.nodes
    → pow2 (rank index) < fuel
    → (r : CapabilityTable × DerivationTree × CapResult ℕ) × (revoke_capability fuel t d index
          generation
        ≡ some r)
unfolding revoke_capability
revoke_capability_total fuel t d rank index generation ranked h =
    let found = collect_subtree_total fuel d rank index ranked h in
    let done = revoke_tree_total fuel d rank index ranked h in
    some_of_ne_none (revoke_capability fuel t d index generation) (ground (arith, found.1, done.1))
