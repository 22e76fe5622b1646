-- ===== src/Cap/Derivation.antt =====
-- crates/rvm-cap/src/derivation.rs and revoke.rs: the tree of derivations, linked through first
-- children and next siblings, and revocation of a subtree. The loops take fuel, and return `none`
-- where it runs out: a list of siblings that runs in a circle is walked for ever.
pub mod Ranks
pub mod Walks
mod Tests
use rvm.Prelude.{
  ℕ, zero, suc, ◌+◌, ◌-◌, Bool, true, false, ◌&&◌, ◌||◌, not, Option, none, some, List, [], ◌∷◌,
  ◌++◌, ltb, leb, ◌==◌, if◌then◌else◌, ok, err, u32_max, length, get_or, set, replicate,
}
use rvm.Cap.Error.{CapResult, invalid_handle, tree_full, revoked}
use rvm.Cap.Table.{CapabilityTable, lookup, remove, force_invalidate}

-- `struct DerivationNode`.
pub record DerivationNode : Type 0 where
  pub is_valid : Bool
  pub depth : ℕ
  pub epoch : ℕ
  pub first_child : ℕ
  pub next_sibling : ℕ
  pub parent_index : ℕ

abbrev pub empty_node : DerivationNode
empty_node = record {
  is_valid = false;
  depth = 0;
  epoch = 0;
  first_child = u32_max;
  next_sibling = u32_max;
  parent_index = u32_max;
}

abbrev pub new_root : ℕ → DerivationNode
new_root epoch = record {
  is_valid = true;
  depth = 0;
  epoch = epoch;
  first_child = u32_max;
  next_sibling = u32_max;
  parent_index = u32_max;
}

abbrev pub new_child : ℕ → ℕ → DerivationNode
new_child depth epoch = record {
  is_valid = true;
  depth = depth;
  epoch = epoch;
  first_child = u32_max;
  next_sibling = u32_max;
  parent_index = u32_max;
}

-- `struct DerivationTree<N>`.
pub record DerivationTree : Type 0 where
  pub nodes : List DerivationNode
  pub count : ℕ

unfoldable pub new : ℕ → DerivationTree
new n = record { nodes = replicate n empty_node; count = 0 }

abbrev pub node : List DerivationNode → ℕ → DerivationNode
node nodes i = get_or nodes i empty_node

unfoldable pub add_root : DerivationTree → ℕ → ℕ → DerivationTree × CapResult (Unit {0})
add_root d index epoch =
    if leb (length d.nodes) index
    then (d, err tree_full)
    else (record { nodes = set d.nodes index (new_root epoch); count = d.count + 1 }, ok tt)

-- The child is put in front of its siblings.
unfoldable pub add_child : DerivationTree → ℕ → ℕ → ℕ → ℕ → DerivationTree × CapResult (Unit {0})
add_child d parent child depth epoch =
    if leb (length d.nodes) parent || leb (length d.nodes) child
    then (d, err tree_full)
    else if not (node d.nodes parent).is_valid
    then (d, err revoked)
    else let p : DerivationNode = node d.nodes parent in
      let c : DerivationNode = new_child depth epoch in
      let linked = record c { next_sibling = p.first_child; parent_index = parent } in
      (
        record {
          nodes = set (set d.nodes parent (record p { first_child = child })) child linked;
          count = d.count + 1;
        },
        ok tt,
      )

unfoldable pub depth : DerivationTree → ℕ → CapResult ℕ
depth d index =
    if leb (length d.nodes) index || not (node d.nodes index).is_valid
    then err invalid_handle
    else ok (node d.nodes index).depth

unfoldable pub is_valid : DerivationTree → ℕ → Bool
is_valid d index = ltb index (length d.nodes) && (node d.nodes index).is_valid

unfoldable pub get : DerivationTree → ℕ → Option DerivationNode
get d index =
    if ltb index (length d.nodes) && (node d.nodes index).is_valid
    then some (node d.nodes index)
    else none

-- The inner loop of both walks: the valid nodes among `child` and its siblings go on the stack,
-- whose top is the head of the list.
unfoldable pub push_children : ℕ → List DerivationNode → ℕ → List ℕ → Option (List ℕ)
push_children zero nodes child stack = none
push_children (suc fuel) nodes child stack =
    let room = (node nodes child).is_valid && ltb (length stack) (length nodes) in
    let rest =
      push_children fuel nodes (node nodes child).next_sibling
        (if room then child ∷ stack else stack) in
    if child == u32_max then some stack else if leb (length nodes) child then some stack else rest

-- `while stack_top > 0` in `collect_subtree`.
unfoldable pub collect_loop : ℕ → List DerivationNode → List ℕ → List ℕ → Option (List ℕ)
collect_loop zero nodes stack result = none
collect_loop (suc fuel) nodes [] result = some result
collect_loop (suc fuel) nodes (current ∷ stack) result =
    let skip = collect_loop fuel nodes stack result in
    let result' = if ltb (length result) (length nodes) then result ++ current ∷ [] else result in
    if leb (length nodes) current || not (node nodes current).is_valid
    then skip
    else elim (push_children fuel nodes (node nodes current).first_child stack) [
      | none ↦ none
      | some stack' ↦ collect_loop fuel nodes stack' result'
    ]

-- The array of `N` indices, filled up with `u32::MAX`.
unfoldable pub collect_subtree : ℕ → DerivationTree → ℕ → Option (List ℕ)
collect_subtree fuel d index =
    let n = length d.nodes in
    let start = if ltb index n && (node d.nodes index).is_valid then index ∷ [] else [] in
    elim (collect_loop fuel d.nodes start []) [
      | none ↦ none
      | some result ↦ some (result ++ replicate (n - length result) u32_max)
    ]

-- `while stack_top > 0` in `revoke_subtree`, with the count of the nodes revoked.
unfoldable pub revoke_loop : ℕ → DerivationTree → List ℕ → ℕ → Option (DerivationTree × ℕ)
revoke_loop zero d stack done = none
revoke_loop (suc fuel) d [] done = some (d, done)
revoke_loop (suc fuel) d (current ∷ stack) done =
    let skip = revoke_loop fuel d stack done in
    let n : DerivationNode = node d.nodes current in
    let nodes' = set d.nodes current (record n { is_valid = false }) in
    if leb (length d.nodes) current || not n.is_valid
    then skip
    else elim (push_children fuel nodes' (node nodes' current).first_child stack) [
      | none ↦ none
      | some stack' ↦
          revoke_loop fuel (record { nodes = nodes'; count = d.count - 1 }) stack' (done + 1)
    ]

unfoldable pub revoke_subtree : ℕ → DerivationTree → ℕ → Option (DerivationTree × ℕ)
revoke_subtree fuel d index =
    if leb (length d.nodes) index || not (node d.nodes index).is_valid
    then some (d, 0)
    else revoke_loop fuel d (index ∷ []) 0

unfoldable pub revoke : ℕ → DerivationTree → ℕ → Option (DerivationTree × CapResult ℕ)
revoke fuel d index =
    if leb (length d.nodes) index
    then some (d, err invalid_handle)
    else if not (node d.nodes index).is_valid
    then some (d, err revoked)
    else elim (revoke_subtree fuel d index) [ none ↦ none | some (d', n) ↦ some (d', ok n) ]

-- `for &idx in &revoked_indices`.
unfoldable pub force_all : CapabilityTable → List ℕ → CapabilityTable
force_all t [] = t
force_all t (i ∷ is) = force_all (force_invalidate t i) is

-- `revoke_capability`: the indices are collected before the tree is changed.
unfoldable pub revoke_capability :
    ℕ
    → CapabilityTable
    → DerivationTree
    → ℕ
    → ℕ
    → Option (CapabilityTable × DerivationTree × CapResult ℕ)
revoke_capability fuel t d index generation = elim (lookup t index generation) [
  | err e ↦ some (t, d, err e)
  | ok _ ↦ elim (collect_subtree fuel d index) [
    | none ↦ none
    | some indices ↦ elim (revoke fuel d index) [
      | none ↦ none
      | some (d', result) ↦ elim result [
        | err _ ↦ some (t, d', err revoked)
        | ok n ↦ some (force_all t indices, d', ok n)
      ]
    ]
  ]
]

pub revoke_single : CapabilityTable → ℕ → ℕ → CapabilityTable × CapResult (Unit {0})
revoke_single t index generation = remove t index generation

-- The slow path of `find_parent`: is `child` among `cursor` and its siblings?
pub has_child : ℕ → List DerivationNode → ℕ → ℕ → Option Bool
has_child zero nodes child cursor = none
has_child (suc fuel) nodes child cursor =
    let rest = has_child fuel nodes child (node nodes cursor).next_sibling in
    if cursor == u32_max
    then some false
    else if cursor == child
    then some true
    else if leb (length nodes) cursor
    then some false
    else rest

-- `for i in 0..N` over the possible parents, `n` of them left.
pub search_parent : ℕ → List DerivationNode → ℕ → ℕ → ℕ → Option (Option ℕ)
search_parent fuel nodes child zero i = some none
search_parent fuel nodes child (suc n) i =
    let rest = search_parent fuel nodes child n (i + 1) in
    if not (node nodes i).is_valid
    then rest
    else elim (has_child fuel nodes child (node nodes i).first_child) [
      | none ↦ none
      | some found ↦ if found then some (some (if leb i u32_max then i else u32_max)) else rest
    ]

unfoldable pub find_parent : ℕ → DerivationTree → ℕ → Option (Option ℕ)
find_parent fuel d child =
    let p = (node d.nodes child).parent_index in
    let slow = search_parent fuel d.nodes child (length d.nodes) 0 in
    if leb (length d.nodes) child || not (node d.nodes child).is_valid
    then some none
    else if (node d.nodes child).depth == 0
    then some none
    else if not (p == u32_max) && ltb p (length d.nodes) && (node d.nodes p).is_valid
    then some (some p)
    else slow
