-- ===== src/Cap/Manager/Revocation.antt =====
-- Proofs about `revoke` of crates/rvm-cap/src/manager.rs: what it does to the table.
use rvm.Prelude.{
  ℕ, zero, suc, ◌≡◌, refl, inl, inr, true, false, not, ◌||◌, ltb, leb, some, List, [], ◌∷◌, ◌++◌,
  ok, err, arith, u32_max, length, get_or-set_self, get_or-set_ne, get_or_default, length-set,
  Bool-cases, Option-cases, Bool, ◌-◌, replicate, if◌then◌else◌, ℕ_discrete, ◌⊎◌,
}
use rvm.Cap.Error.{invalid_handle}
use rvm.Cap.Table.{
  CapabilityTable, CapSlot, empty_slot, is_valid, slot, lookup, invalidate, release_slot,
  force_invalidate,
}
use rvm.Cap.Table.Invariant.{invalidate-invalid}
use rvm.Cap.Derivation.{
  DerivationNode, DerivationTree, node, push_children, collect_loop, collect_subtree,
  revoke_subtree, force_all, revoke_capability,
}
use rvm.Cap.Derivation
use rvm.Cap.Manager.{CapabilityManager, revoke}

-- A slot is as it was, or it is dead.
abbrev SameOrDead : CapSlot → CapSlot → Type 0
SameOrDead old new = (new ≡ old) ⊎ (is_valid new ≡ false)

force_invalidate-slot :
    (t : CapabilityTable) (i j : ℕ) → SameOrDead (slot t j) (slot (force_invalidate t i) j)
unfolding force_invalidate release_slot
force_invalidate-slot t i j = elim (ℕ_discrete i j) [
  | yes e ↦ ground (
    arith,
    get_or-set_self t.slots j (invalidate (slot t j)) empty_slot,
    invalidate-invalid (slot t j),
  )
  | no ne ↦ ground (arith, get_or-set_ne t.slots i j (invalidate (slot t i)) empty_slot ne)
]

force_invalidate-dead :
    (t : CapabilityTable) (i : ℕ) → is_valid (slot (force_invalidate t i) i) ≡ false
unfolding force_invalidate release_slot
force_invalidate-dead t i = ground (
  arith,
  get_or-set_self t.slots i (invalidate (slot t i)) empty_slot,
  invalidate-invalid (slot t i),
  get_or_default t.slots i empty_slot,
)

force_all-slot :
    (t : CapabilityTable) (is : List ℕ) (j : ℕ) → SameOrDead (slot t j) (slot (force_all t is) j)
unfolding force_all
force_all-slot t [] j = inl refl
force_all-slot t (i ∷ is) j =
    ground (arith, force_invalidate-slot t i j, force_all-slot (force_invalidate t i) is j)

force_all-dead :
    (t : CapabilityTable) (i : ℕ) (is : List ℕ) → is_valid (slot (force_all t (i ∷ is)) i) ≡ false
unfolding force_all
force_all-dead t i is =
    ground (arith, force_invalidate-dead t i, force_all-slot (force_invalidate t i) is i)

-- What the walk has collected stays at the front.
abbrev Headed : ℕ → List ℕ → Type 0
Headed i found = (rest : List ℕ) × (found ≡ i ∷ rest)

Headed-room :
    (i current : ℕ) (result : List ℕ) (b : Bool)
    → Headed i result
    → Headed i (if b then result ++ current ∷ [] else result)
Headed-room i current result true (rest, e) = (rest ++ current ∷ [], rw e)
Headed-room i current result false h = h

collect_loop-Headed :
    (fuel : ℕ) (nodes : List DerivationNode) (stack : List ℕ) (i : ℕ) (result found : List ℕ)
    → Headed i result
    → collect_loop fuel nodes stack result ≡ some found
    → Headed i found
unfolding collect_loop
collect_loop-Headed zero nodes stack i result found h e = absurd (cc)
collect_loop-Headed (suc fuel) nodes [] i result found h e = (h.0, ground (arith, h.1))
collect_loop-Headed (suc fuel) nodes (current ∷ stack) i result found h e =
    let room = ltb (length result) (length nodes) in
    let result' = if room then result ++ current ∷ [] else result in
    elim (Bool-cases (leb (length nodes) current || not (node nodes current).is_valid)) [
      | inl skip ↦ collect_loop-Headed fuel nodes stack i result found h (ground arith)
      | inr go ↦
          elim (Option-cases (push_children fuel nodes (node nodes current).first_child stack)) [
            | inl out ↦ absurd (ground arith)
            | inr (stack', pushed) ↦
                collect_loop-Headed fuel nodes stack' i result' found
                  (Headed-room i current result room h) (ground arith)
          ]
    ]

-- The walk from a node that is valid collects that node first.
collect_subtree-Headed :
    (fuel : ℕ) (d : DerivationTree) (i : ℕ) (found : List ℕ)
    → Derivation.is_valid d i ≡ true
    → collect_subtree fuel d i ≡ some found
    → Headed i found
unfolding collect_subtree collect_loop Derivation.is_valid
collect_subtree-Headed zero d i found v e = absurd (ground arith)
collect_subtree-Headed (suc fuel) d i found v e =
    elim (Option-cases (push_children fuel d.nodes (node d.nodes i).first_child [])) [
      | inl out ↦ absurd (ground arith)
      | inr (stack', pushed) ↦ elim (Option-cases (collect_loop fuel d.nodes stack' (i ∷ []))) [
        | inl out ↦ absurd (ground arith)
        | inr (walked, w) ↦
            let head = collect_loop-Headed fuel d.nodes stack' i (i ∷ []) walked ([], refl) w in
            (head.0 ++ replicate (length d.nodes - length walked) u32_max, ground (arith, head.1))
      ]
    ]

revoke_table :
    (fuel : ℕ) (m m' : CapabilityManager) (index generation k : ℕ)
    → revoke fuel m index generation ≡ some (m', ok k)
    → (found : List ℕ) × (collect_subtree fuel m.derivation index ≡ some found)
      × (Derivation.is_valid m.derivation index ≡ true)
      × (m'.table ≡ force_all m.table found)
unfolding revoke revoke_capability Derivation.revoke Derivation.is_valid
revoke_table fuel m m' index generation k e =
    elim (Option-cases (collect_subtree fuel m.derivation index)) [
      | inl out ↦ absurd (ground arith)
      | inr (found, c) ↦ (found, c, ground arith, ground arith)
    ]

lookup-SameOrDead :
    (t t' : CapabilityTable) (j h : ℕ) (s : CapSlot)
    → length t'.slots ≡ length t.slots
    → SameOrDead (slot t j) (slot t' j)
    → lookup t' j h ≡ ok s
    → lookup t j h ≡ ok s
unfolding lookup
lookup-SameOrDead t t' j h s same r e = ground arith

length-force_all :
    (t : CapabilityTable) (is : List ℕ) → length (force_all t is).slots ≡ length t.slots
unfolding force_all force_invalidate release_slot
length-force_all t [] = refl
length-force_all t (i ∷ is) = ground (
  arith,
  length-force_all (force_invalidate t i) is,
  length-set t.slots i (invalidate (slot t i)),
)

-- A revocation that returns a count has killed the handle that it was given, and every handle that
-- still reads a capability afterwards read the same one before: none is revived, moved or changed.
pub revoke-kills :
    (fuel : ℕ) (m m' : CapabilityManager) (index generation k : ℕ)
    → revoke fuel m index generation ≡ some (m', ok k)
    → (lookup m'.table index generation ≡ err invalid_handle)
      × ((j h : ℕ) (s : CapSlot) → lookup m'.table j h ≡ ok s → lookup m.table j h ≡ ok s)
unfolding lookup
revoke-kills fuel m m' index generation k e =
    let (found, c, v, t) = revoke_table fuel m m' index generation k e in
    let (rest, head) = collect_subtree-Headed fuel m.derivation index found v c in
    let dead = force_all-dead m.table index rest in
    (
      rw (t, head) (ground (arith, dead)),
      λ j h s. rw t (
          lookup-SameOrDead m.table (force_all m.table found) j h s (length-force_all m.table found)
            (force_all-slot m.table found j)),
    )
