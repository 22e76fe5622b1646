-- ===== src/Partition/Manager/Directory.antt =====
-- Proofs about crates/rvm-partition/src/manager.rs: the manager as a directory from ids to partitions.
use native.Mathlib.Nat.{mod-eq_of_lt}
use rvm.Prelude.{
  ℕ, ◌+◌, ◌-◌, ◌^◌, ◌<◌, ◌≡◌, ◌∙◌, refl, sym, arith, inl, inr, Option, none, some, List, [], ◌∷◌,
  leb, ◌==◌, if◌then◌else◌, ok, err, is_some, wrapping_pred64, length, get_or, set, replicate,
  count_where, length-set, length-replicate, get_or-replicate, count_where-set,
  count_where-replicate,
}
use rvm.Types.{PartitionId, RvmResult, partition_limit_exceeded, partition_not_found}
use rvm.Partition.Manager.{
  Partition, PartitionType, PartitionManager, max_partitions, new_partition, new, fill, create, get,
  update, remove,
}
use rvm.Partition.Manager.Slots.{IsApart, lookup, lookup-absent}
use rvm.Partition.Manager.Moves.{
  ids_agree, put-IsApart, put-lookup, clear-IsApart, clear-lookup, put-read, clear-read,
}

-- The partitions by id, how many there are, and the next id.
pub record Directory : Type 0 where
  pub entries : PartitionId → Option Partition
  pub live : ℕ
  pub next : ℕ

-- The calls of the manager. A change through `get_mut` keeps the id.
pub data Call : Type 0 where
  creates : PartitionType → (vcpu_count epoch : ℕ) → Call
  gets removes : PartitionId → Call
  changes :
      PartitionId
      → (change : Partition → Partition) → ((p : Partition) → (change p).id ≡ p.id)
      → Call

pub data Answer : Type 0 where
  created_as : RvmResult PartitionId → Answer
  got : Option Partition → Answer
  removed : RvmResult (Unit {0}) → Answer
  changed : Answer

abbrev pub call : PartitionManager → Call → PartitionManager × Answer
call m (creates t vcpu_count epoch) =
    ((create m t vcpu_count epoch).0, created_as (create m t vcpu_count epoch).1)
call m (gets id) = (m, got (get m id))
call m (removes id) = ((remove m id).0, removed (remove m id).1)
call m (changes id change keeps) = (update m id change, changed)

abbrev pub answers : PartitionManager → List Call → List Answer
answers m [] = []
answers m (c ∷ cs) = (call m c).1 ∷ answers (call m c).0 cs

abbrev pub changed_to : (Partition → Partition) → Option Partition → Option Partition
changed_to change none = none
changed_to change (some p) = some (change p)

-- The entry of one id is replaced.
abbrev pub with_entry : Directory → PartitionId → Option Partition → PartitionId → Option Partition
with_entry d id e x = if x == id then e else d.entries x

-- What the calls do to a directory.
abbrev pub expected : Directory → Call → Directory × Answer
expected d (creates t vcpu_count epoch) =
    if leb max_partitions d.live then (d, created_as (err partition_limit_exceeded)) else (
      record {
        entries = with_entry d d.next (some (new_partition d.next t vcpu_count epoch));
        live = d.live + 1;
        next = d.next + 1;
      },
      created_as (ok d.next),
    )
expected d (gets id) = (d, got (d.entries id))
expected d (removes id) =
    if is_some (d.entries id)
    then (record d { entries = with_entry d id none; live = d.live - 1 }, removed (ok tt))
    else (d, removed (err partition_not_found))
expected d (changes id change keeps) =
    (record d { entries = with_entry d id (changed_to change (d.entries id)) }, changed)

abbrev pub expected_answers : Directory → List Call → List Answer
expected_answers d [] = []
expected_answers d (c ∷ cs) = (expected d c).1 ∷ expected_answers (expected d c).0 cs

-- The manager stands for the directory.
pub record Represents (m : PartitionManager) (d : Directory) : Type 0 where
  pub sized : length m.partitions ≡ max_partitions
  pub counted : m.count ≡ count_where is_some m.partitions
  pub live : d.live ≡ m.count
  pub next : d.next ≡ m.next_id
  pub fresh : (i : ℕ) (p : Partition) → get_or m.partitions i none ≡ some p → p.id < m.next_id
  pub apart : IsApart m.partitions
  pub same : (id : PartitionId) → lookup id m.partitions ≡ d.entries id

pub new-Represents : Represents new (record { entries = λ id. none; live = 0; next = 1 })
unfolding new
new-Represents = record {
  sized = length-replicate {A = Option Partition} max_partitions none;
  counted = sym (count_where-replicate {A = Option Partition} is_some max_partitions none refl);
  live = refl;
  next = refl;
  fresh = λ i p at.
      absurd (ground (arith, get_or-replicate {A = Option Partition} max_partitions i none, at));
  apart = λ i j p q at at' e.
      absurd (ground (arith, get_or-replicate {A = Option Partition} max_partitions i none, at));
  same = λ id. lookup-absent (replicate max_partitions none) id (λ i p at e.
      absurd (ground (arith, get_or-replicate {A = Option Partition} max_partitions i none, at)));
}

pub fill-Represents :
    (m : PartitionManager) (d : Directory) (i : ℕ) (p : Partition)
    → Represents m d
    → m.next_id + 1 < 2 ^ 32
    → p.id ≡ d.next
    → i < length m.partitions
    → get_or m.partitions i none ≡ none
    → Represents
        (fill m i p)
        (record { entries = with_entry d d.next (some p); live = d.live + 1; next = d.next + 1 })
fill-Represents m d i p v room id inside vacant =
    let unused : (j : ℕ) (q : Partition)
        → get_or m.partitions j none ≡ some q
        → p.id ≡ q.id
        → i ≡ j =
      λ j q at e. absurd (omega (arith, v.fresh j q at, id, v.next, e)) in
    record {
      sized = length-set m.partitions i (some p) ∙ v.sized;
      counted =
          ground
            (arith, vacant, v.counted, count_where-set is_some m.partitions i (some p) none inside);
      live = omega (arith, v.live);
      next = omega (arith, v.next, mod-eq_of_lt room);
      fresh = λ j q at. elim (put-read m.partitions i j p q inside at) [
        | inl (_, e) ↦ omega (arith, e, id, v.next, mod-eq_of_lt room)
        | inr (_, there) ↦ omega (arith, v.fresh j q there, mod-eq_of_lt room)
      ];
      apart = put-IsApart m.partitions i p v.apart inside unused;
      same = λ x.
          put-lookup m.partitions i p v.apart inside unused
            (λ q at. absurd (ground (arith, vacant, at))) x
          ∙ rw (id, v.same x) refl;
    }

pub remove-Represents :
    (m : PartitionManager) (d : Directory) (i : ℕ) (p : Partition) (id : PartitionId)
    (index : List (Option ℕ))
    → Represents m d
    → i < length m.partitions
    → get_or m.partitions i none ≡ some p
    → p.id ≡ id
    → Represents
        (record m {
          partitions = set m.partitions i none;
          count = wrapping_pred64 m.count;
          id_to_slot = index;
        })
        (record d { entries = with_entry d id none; live = d.live - 1 })
remove-Represents m d i p id index v inside at same =
    let counts = count_where-set is_some m.partitions i none none inside in
    record {
      sized = length-set m.partitions i none ∙ v.sized;
      counted = ground (arith, at, v.counted, counts);
      live = ground (arith, at, v.counted, v.live, counts);
      next = v.next;
      fresh = λ j q there. v.fresh j q (clear-read m.partitions i j q inside there).1;
      apart = clear-IsApart m.partitions i v.apart inside;
      same = λ x. clear-lookup m.partitions i p v.apart inside at x ∙ rw (same, v.same x) refl;
    }

pub change-Represents :
    (m : PartitionManager) (d : Directory) (i : ℕ) (p p' : Partition) (id : PartitionId)
    → Represents m d
    → i < length m.partitions
    → get_or m.partitions i none ≡ some p
    → p.id ≡ id
    → p'.id ≡ id
    → Represents
        (record m { partitions = set m.partitions i (some p') })
        (record d { entries = with_entry d id (some p') })
change-Represents m d i p p' id v inside at same same' =
    let only : (j : ℕ) (q : Partition)
        → get_or m.partitions j none ≡ some q
        → p'.id ≡ q.id
        → i ≡ j =
      λ j q there e. v.apart i j p q at there (same ∙ sym same' ∙ e) in
    record {
      sized = length-set m.partitions i (some p') ∙ v.sized;
      counted =
          ground
            (arith, at, v.counted, count_where-set is_some m.partitions i (some p') none inside);
      live = v.live;
      next = v.next;
      fresh = λ j q there. elim (put-read m.partitions i j p' q inside there) [
        | inl (_, e) ↦ omega (arith, e, same, same', v.fresh i p at)
        | inr (_, before) ↦ v.fresh j q before
      ];
      apart = put-IsApart m.partitions i p' v.apart inside only;
      same = λ x.
          put-lookup m.partitions i p' v.apart inside only
            (λ q there. ids_agree (sym there ∙ at) ∙ same ∙ sym same') x
          ∙ rw (same', v.same x) refl;
    }
