-- ===== src/Cap/Table/Tests.antt =====
-- Tests of crates/rvm-cap/src/table.rs. A table of two slots: a capability is removed, and its
-- slot is used again.
use rvm.Prelude.{
  ℕ, true, false, ◌+◌, ◌<◌, ◌≤◌, ◌⊎◌, subst, sym, length, ◌≡◌, ◌≢◌, refl, ok, err, arith,
  if◌then◌else◌,
}
use rvm.Types.Capability.{CapToken, region, read}
use rvm.Cap.Error.{invalid_handle, stale_handle, table_full}
use rvm.Cap.Table.{
  CapabilityTable, slot, is_valid, new, new_slot, lookup, remove, release_slot, invalidate,
  next_generation, matches, first_free, find_free_slot, insert_slot, insert_derived,
}
use rvm.Cap.Table.Invariant.{IsTable, new-IsTable, insert_slot-IsTable}
use rvm.Cap.Table.Free.{find_free_slot-cases}
use rvm.Cap.Table.Handles.{lookup-insert_derived}
use rvm.Cap.Table.Retired.{here, next, inserts_derived, lookup-remove_dead}

abbrev token : CapToken
token = record { id = 1; cap_type = region; rights = read; epoch = 0 }

abbrev filled_table : CapabilityTable
filled_table = (insert_derived (new 2) token 7 1 0 5).0

abbrev emptied : CapabilityTable
emptied = (remove filled_table 0 1).0

abbrev refilled : CapabilityTable
refilled = (insert_derived emptied token 8 1 0 6).0

-- The handle of the capability that was removed is (0, 1), and the next one there is (0, 2).
reuse :
    (insert_derived (new 2) token 7 1 0 5 ≡ (filled_table, ok (0, 1)))
    × (remove filled_table 0 1 ≡ (emptied, ok tt))
    × (insert_derived emptied token 8 1 0 6 ≡ (refilled, ok (0, 2)))
unfolding new insert_derived insert_slot find_free_slot first_free next_generation remove matches
    release_slot invalidate
reuse = (refl, refl, refl)

filled_table-IsTable : IsTable 2 filled_table
unfolding insert_derived
filled_table-IsTable = insert_slot-IsTable (new 2) token 7 1 0 5 (new-IsTable 2)

lookup-insert_derived_example :
    (lookup filled_table 0 1 ≡ ok (new_slot token 1 7 1 0 5))
    × ((j k : ℕ) → j ≢ 0 → lookup filled_table j k ≡ lookup (new 2) j k)
lookup-insert_derived_example =
    lookup-insert_derived (new 2) filled_table token 7 1 0 5 0 1 (new-IsTable 2) (omega arith)
      reuse.0

lookup-remove_dead_example :
    lookup refilled 0 1 ≡ err (if is_valid (slot refilled 0) then stale_handle else invalid_handle)
lookup-remove_dead_example =
    lookup-remove_dead filled_table emptied refilled 0 1 filled_table-IsTable (omega arith) reuse.1
      (next here (inserts_derived token 8 1 0 6))

find_free_slot-cases_example :
    ((i : ℕ) × (i < length filled_table.slots)
      × (is_valid (slot filled_table i) ≡ false)
      × (find_free_slot filled_table ≡ (record filled_table { free_hint = i + 1 }, ok i)))
    ⊎ ((find_free_slot filled_table ≡ (filled_table, err table_full))
        × ((j : ℕ) → j < length filled_table.slots → is_valid (slot filled_table j) ≡ true))
find_free_slot-cases_example = find_free_slot-cases filled_table (
    subst (λ n. filled_table.free_hint ≤ n) (sym filled_table-IsTable.sized)
      filled_table-IsTable.hinted)
