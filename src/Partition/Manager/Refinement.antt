-- ===== src/Partition/Manager/Refinement.antt =====
-- Proofs about crates/rvm-partition/src/manager.rs: runs of calls, against the
-- directory.
use native.Mathlib.Nat.{mod-eq_of_lt}
use rvm.Prelude.{
  ℕ, ◌+◌, ◌^◌, ◌≤◌, ◌<◌, ◌≡◌, ◌∙◌, refl, sym, subst, ap, arith, true, false, inl, inr, Bool-cases,
  Option-cases, none, some, List, [], ◌∷◌, leb, ◌==◌, ok, length, first_where, vacant_slot,
  ℕ_discrete,
}
use rvm.Types.{PartitionId}
use rvm.Partition.Manager.{
  Partition, PartitionType, PartitionManager, max_partitions, new_partition, new, has_id, fill,
  create, get_mut, update, remove,
}
use rvm.Partition.Manager.Slots.{
  first-has_id, inside_of_some, lookup-at, nowhere-has_id, get-lookup, get_mut-some, get_mut-none,
}
use rvm.Partition.Manager.Directory.{
  Directory, Call, creates, gets, removes, changes, created_as, got, call, answers, expected,
  expected_answers, Represents, new-Represents, fill-Represents, remove-Represents,
  change-Represents, with_entry,
}

-- The manager and the directory answer alike, and go on alike.
Agrees : PartitionManager → Directory → Call → Type 0
Agrees m d c =
    Represents (call m c).0 (expected d c).0
    × ((call m c).1 ≡ (expected d c).1)
    × ((call m c).0.next_id ≤ m.next_id + 1)

creates-Agrees :
    (m : PartitionManager) (d : Directory) (t : PartitionType) (vcpu_count epoch : ℕ)
    → Represents m d
    → m.next_id + 1 < 2 ^ 32
    → Agrees m d (creates t vcpu_count epoch)
unfolding Agrees create
creates-Agrees m d t vcpu_count epoch v room = elim (Bool-cases (leb max_partitions m.count)) [
  | inl full ↦
      let full' : leb max_partitions d.live ≡ true = rw v.live full in
      rw (create, full, full') (v, refl, omega arith)
  | inr open_ ↦
      let open' : leb max_partitions d.live ≡ false = rw v.live open_ in
      let (i, e, inside, vacant) = vacant_slot m.partitions (ground (arith, v.counted, v.sized)) in
      let p = new_partition m.next_id t vcpu_count epoch in
      let w = fill-Represents m d i p v room (sym v.next) inside vacant in
      rw (create, open_, open', e)
        (
          subst
              (λ n. Represents (fill m i p) (record {
                entries = with_entry d d.next (some (new_partition n t vcpu_count epoch));
                live = d.live + 1;
                next = d.next + 1;
              }))
              (sym v.next) w,
          ap (λ n. created_as (ok n)) (sym v.next),
          omega (arith, mod-eq_of_lt room),
        )
]

removes-Agrees :
    (m : PartitionManager) (d : Directory) (id : PartitionId)
    → Represents m d
    → Agrees m d (removes id)
unfolding Agrees remove
removes-Agrees m d id v = elim (Option-cases (first_where (has_id id) m.partitions 0)) [
  | inl e ↦
      let gone : d.entries id ≡ none = sym (v.same id) ∙ nowhere-has_id m.partitions id e in
      rw (remove, e, gone) (v, refl, omega arith)
  | inr (i, e) ↦
      let (p, at, same) = first-has_id m.partitions id i e in
      let there : d.entries id ≡ some p =
        sym (v.same id) ∙ lookup-at m.partitions i p id v.apart same at in
      rw (remove, e, there)
        (
          remove-Represents m d i p id _ v (inside_of_some m.partitions i p at) at same,
          refl,
          omega arith,
        )
]

unchanged-Represents :
    (m : PartitionManager) (d : Directory) (id : PartitionId)
    → Represents m d
    → d.entries id ≡ none
    → Represents m (record d { entries = with_entry d id none })
unchanged-Represents m d id v gone = record {
  sized = v.sized;
  counted = v.counted;
  live = v.live;
  next = v.next;
  fresh = v.fresh;
  apart = v.apart;
  same = λ x. elim (ℕ_discrete x id) [
    | yes e ↦
        let hit : x == id ≡ true = ground (arith, e) in rw hit (v.same x ∙ ap d.entries e ∙ gone)
    | no ne ↦ let miss : x == id ≡ false = ground (arith, ne) in rw miss (v.same x)
  ];
}

changes-Agrees :
    (m : PartitionManager) (d : Directory) (id : PartitionId) (change : Partition → Partition)
    (keeps : (p : Partition) → (change p).id ≡ p.id)
    → Represents m d
    → Agrees m d (changes id change keeps)
unfolding Agrees update
changes-Agrees m d id change keeps v = elim (Option-cases (get_mut m id)) [
  | inl e ↦
      let gone : d.entries id ≡ none = sym (v.same id) ∙ get_mut-none m id e in
      rw (update, e, gone) (unchanged-Represents m d id v gone, refl, omega arith)
  | inr (i, e) ↦
      let (p, at, same) = get_mut-some m id i e in
      let there : d.entries id ≡ some p =
        sym (v.same id) ∙ lookup-at m.partitions i p id v.apart same at in
      rw (update, e, at, there)
        (
          change-Represents m d i p (change p) id v (inside_of_some m.partitions i p at) at same
              (keeps p ∙ same),
          refl,
          omega arith,
        )
]

call-Agrees :
    (m : PartitionManager) (d : Directory) (c : Call)
    → Represents m d
    → m.next_id + 1 < 2 ^ 32
    → Agrees m d c
unfolding Agrees
call-Agrees m d (creates t vcpu_count epoch) v room = creates-Agrees m d t vcpu_count epoch v room
call-Agrees m d (gets id) v room = (v, ap got (get-lookup m id v.apart ∙ v.same id), omega arith)
call-Agrees m d (removes id) v room = removes-Agrees m d id v
call-Agrees m d (changes id change keeps) v room = changes-Agrees m d id change keeps v

answers-expected_from :
    (cs : List Call) (m : PartitionManager) (d : Directory)
    → Represents m d
    → m.next_id + length cs < 2 ^ 32
    → answers m cs ≡ expected_answers d cs
unfolding Agrees
answers-expected_from [] m d v b = refl
answers-expected_from (c ∷ cs) m d v b =
    let (w, same, next) = call-Agrees m d c v (omega (arith, b)) in
    rw same (
      ap (λ xs. (expected d c).1 ∷ xs)
        (answers-expected_from cs (call m c).0 (expected d c).0 w (omega (arith, b, next))))

-- A new manager answers every run of fewer than 2³² - 1 calls as a directory from ids to partitions
-- does: `create` enters a new partition under the next id, and fails only when there are 256;
-- `get` gives the partition of an id, `remove` takes it away, and fails only if there is none; a
-- change through `get_mut` that keeps the id changes that partition and no other. What the index
-- of ids holds makes no difference.
pub answers-expected_answers :
    (cs : List Call)
    → length cs + 1 < 2 ^ 32
    → answers new cs ≡ expected_answers (record { entries = λ id. none; live = 0; next = 1 }) cs
unfolding new
answers-expected_answers cs b =
    answers-expected_from cs new (record { entries = λ id. none; live = 0; next = 1 })
      new-Represents (omega (arith, b))
