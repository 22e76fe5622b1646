-- ===== src/Cap/Derivation/Ranks.antt =====
-- Proofs about `add_child` of crates/rvm-cap/src/derivation.rs: trees whose links do not run in
-- a circle, where a rank falls along every link.
use rvm.Prelude.{
  ℕ, ◌+◌, ◌*◌, ◌<◌, ◌≡◌, ◌≢◌, ◌∙◌, refl, sym, subst, true, ok, arith, u32_max, length, set,
  get_or-set_self, get_or-set_ne, length-set, List, if◌then◌else◌, ◌==◌, ℕ_discrete, ◌||◌, leb,
}
use rvm.Cap.Derivation.{DerivationNode, DerivationTree, empty_node, new_child, node, add_child}

-- Among `n` nodes, `c` is the index of a node, and not the mark at the end of a list.
abbrev pub IsLink : ℕ → ℕ → Type 0
IsLink n c = (c ≢ u32_max) × (c < n)

-- The rank falls from the node `x` at `i` to its first child and to its next sibling.
abbrev pub Falls : ℕ → (ℕ → ℕ) → ℕ → DerivationNode → Type 0
Falls n rank i x =
    (IsLink n x.first_child → rank x.first_child < rank i)
    × (IsLink n x.next_sibling → rank x.next_sibling < rank i)

abbrev pub IsRanked : (ℕ → ℕ) → List DerivationNode → Type 0
IsRanked rank nodes = (i : ℕ) → i < length nodes → Falls (length nodes) rank i (node nodes i)

-- No link leads to `c`.
abbrev pub IsUnlinked : List DerivationNode → ℕ → Type 0
IsUnlinked nodes c =
    (i : ℕ)
    → i < length nodes
    → ((node nodes i).first_child ≢ c) × ((node nodes i).next_sibling ≢ c)

-- The ranks after a new child `c` of a parent whose first child was `f`: the others are spread out,
-- and the child stands just above `f`, or lowest if there was none.
abbrev pub rank_of_child : List DerivationNode → (ℕ → ℕ) → ℕ → ℕ
rank_of_child nodes rank f = if f == u32_max || leb (length nodes) f then 1 else 2 * rank f + 3

abbrev pub rank_with : List DerivationNode → (ℕ → ℕ) → ℕ → ℕ → ℕ → ℕ
rank_with nodes rank c f i = if i == c then rank_of_child nodes rank f else 2 * rank i + 2

abbrev linked_child : List DerivationNode → ℕ → ℕ → ℕ → DerivationNode
linked_child nodes parent depth epoch =
    let c : DerivationNode = new_child depth epoch in
    record c { next_sibling = (node nodes parent).first_child; parent_index = parent }

abbrev with_child : List DerivationNode → ℕ → ℕ → DerivationNode
with_child nodes parent child =
    let p : DerivationNode = node nodes parent in record p { first_child = child }

abbrev linked : List DerivationNode → ℕ → ℕ → ℕ → ℕ → List DerivationNode
linked nodes parent child depth epoch =
    set (set nodes parent (with_child nodes parent child)) child
      (linked_child nodes parent depth epoch)

-- What a successful `add_child` did.
pub add_child-inv :
    (d d' : DerivationTree) (parent child depth epoch : ℕ)
    → add_child d parent child depth epoch ≡ (d', ok tt)
    → (parent < length d.nodes)
      × (child < length d.nodes)
      × ((node d.nodes parent).is_valid ≡ true)
      × (d'.nodes ≡ linked d.nodes parent child depth epoch)
unfolding add_child
add_child-inv d d' parent child depth epoch e = ground arith

module _ (nodes : List DerivationNode) (parent child depth epoch : ℕ) where
  length-linked : length (linked nodes parent child depth epoch) ≡ length nodes
  length-linked = rw (length-set, length-set)

  node_child :
      child < length nodes
      → node (linked nodes parent child depth epoch) child ≡ linked_child nodes parent depth epoch
  node_child h = get_or-set_self _ child _ empty_node (rw length-set h)

  node_parent :
      parent < length nodes
      → child ≢ parent
      → node (linked nodes parent child depth epoch) parent ≡ with_child nodes parent child
  node_parent h ne =
      get_or-set_ne _ child parent _ empty_node ne ∙ get_or-set_self nodes parent _ empty_node h

  node_other :
      (i : ℕ)
      → child ≢ i
      → parent ≢ i
      → node (linked nodes parent child depth epoch) i ≡ node nodes i
  node_other i c p =
      get_or-set_ne _ child i _ empty_node c ∙ get_or-set_ne nodes parent i _ empty_node p

  module _ (rank : ℕ → ℕ) (ranked : IsRanked rank nodes) (fresh : IsUnlinked nodes child)
      (inside : parent < length nodes) (child_inside : child < length nodes)
      (apart : child ≢ parent) where
    abbrev rank' : ℕ → ℕ
    rank' = rank_with nodes rank child (node nodes parent).first_child

    -- The links of the child, of the parent and of every other node.
    ranked_child : Falls (length nodes) rank' child (linked_child nodes parent depth epoch)
    ranked_child = (λ link. absurd (link.0 refl), λ link. ground (arith, (fresh parent inside).0))

    ranked_parent : Falls (length nodes) rank' parent (with_child nodes parent child)
    ranked_parent = (
      λ link. ground (arith, (ranked parent inside).0),
      λ link. ground (arith, (fresh parent inside).1, (ranked parent inside).1 link),
    )

    ranked_other :
        (i : ℕ) → i < length nodes → child ≢ i → Falls (length nodes) rank' i (node nodes i)
    ranked_other i lt ne = (
      λ link. ground (arith, (fresh i lt).0, (ranked i lt).0 link),
      λ link. ground (arith, (fresh i lt).1, (ranked i lt).1 link),
    )

    new_nodes : List DerivationNode
    new_nodes = linked nodes parent child depth epoch

    Falls-linked : (i : ℕ) → i < length nodes → Falls (length nodes) rank' i (node new_nodes i)
    unfolding new_nodes
    Falls-linked i lt = elim (ℕ_discrete child i) [
      | yes e ↦
          subst (λ k. Falls (length nodes) rank' k (node new_nodes k)) e
            (subst (Falls (length nodes) rank' child) (sym (node_child child_inside)) ranked_child)
      | no n ↦ elim (ℕ_discrete parent i) [
        | yes e ↦
            subst (λ k. Falls (length nodes) rank' k (node new_nodes k)) e
              (subst (Falls (length nodes) rank' parent) (sym (node_parent inside apart))
                ranked_parent)
        | no m ↦ subst (Falls (length nodes) rank' i) (sym (node_other i n m)) (ranked_other i lt n)
      ]
    ]

    IsRanked-linked : IsRanked rank' new_nodes
    unfolding new_nodes
    IsRanked-linked =
        subst (λ n. (i : ℕ) → i < n → Falls n rank' i (node new_nodes i)) (sym length-linked)
          Falls-linked

-- A child whose index no link leads to yet keeps the tree free of circles, whatever the shape of
-- the tree: the ranks of the old tree give those of the new one.
pub add_child-IsRanked :
    (d d' : DerivationTree) (parent child depth epoch : ℕ) (rank : ℕ → ℕ)
    → IsRanked rank d.nodes
    → IsUnlinked d.nodes child
    → child ≢ parent
    → add_child d parent child depth epoch ≡ (d', ok tt)
    → IsRanked (rank_with d.nodes rank child (node d.nodes parent).first_child) d'.nodes
unfolding new_nodes
add_child-IsRanked d d' parent child depth epoch rank ranked fresh apart e =
    let (inside, child_inside, _, eq) = add_child-inv d d' parent child depth epoch e in
    subst (IsRanked (rank_with d.nodes rank child (node d.nodes parent).first_child)) (sym eq)
      (IsRanked-linked d.nodes parent child depth epoch rank ranked fresh inside child_inside apart)

-- A child put into the slot that heads its parent's list is its own next sibling.
pub regrant_node :
    (d d' : DerivationTree) (parent child depth epoch : ℕ)
    → (node d.nodes parent).first_child ≡ child
    → child ≢ parent
    → add_child d parent child depth epoch ≡ (d', ok tt)
    → (parent < length d'.nodes)
      × (child < length d'.nodes)
      × ((node d'.nodes parent).is_valid ≡ true)
      × ((node d'.nodes parent).first_child ≡ child)
      × ((node d'.nodes child).next_sibling ≡ child)
regrant_node d d' parent child depth epoch first apart e =
    let (inside, child_inside, valid, eq) = add_child-inv d d' parent child depth epoch e in
    rw eq (
      rw length-linked inside,
      rw length-linked child_inside,
      rw (node_parent d.nodes parent child depth epoch inside apart) valid,
      rw (node_parent d.nodes parent child depth epoch inside apart),
      rw (node_child d.nodes parent child depth epoch child_inside) first,
    )
