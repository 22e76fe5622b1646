-- ===== src/Cap/Table/Free.antt =====
-- Proofs about `find_free_slot` of crates/rvm-cap/src/table.rs.
use rvm.Prelude.{
  ℕ, zero, suc, ◌+◌, ◌-◌, ◌≤◌, ◌<◌, ◌≡◌, refl, ◌⊎◌, inl, inr, true, false, Option, none, some, List,
  ok, err, arith, length, get_or, Bool-cases,
}
use rvm.Cap.Error.{table_full}
use rvm.Cap.Table.{CapSlot, CapabilityTable, empty_slot, is_valid, slot, first_free, find_free_slot}

-- What a search of the slots from `lo` up to `hi` returns.
abbrev Searched : List CapSlot → ℕ → ℕ → Option ℕ → Type 0
Searched slots lo hi (some j) = (lo ≤ j) × (j < hi) × (is_valid (get_or slots j empty_slot) ≡ false)
Searched slots lo hi none = (j : ℕ) → lo ≤ j → j < hi → is_valid (get_or slots j empty_slot) ≡ true

Searched-widen :
    (slots : List CapSlot) (lo hi : ℕ) (r : Option ℕ)
    → is_valid (get_or slots lo empty_slot) ≡ true
    → Searched slots (lo + 1) hi r
    → Searched slots lo hi r
Searched-widen slots lo hi none v h = λ j p q. grind (arith, h j)
Searched-widen slots lo hi (some j) v h = (omega arith, h.1, h.2)

first_free-Searched :
    (slots : List CapSlot) (n i hi : ℕ) → i + n ≡ hi → Searched slots i hi (first_free slots n i)
unfolding first_free
first_free-Searched slots zero i hi e = λ j p q. absurd (omega arith)
first_free-Searched slots (suc n) i hi e =
    elim (Bool-cases (is_valid (get_or slots i empty_slot))) [
      | inl v ↦ rw v (
          Searched-widen slots i hi (first_free slots n (i + 1)) v
            (first_free-Searched slots n (i + 1) hi (omega arith)))
      | inr v ↦ rw v (omega arith, omega arith, v)
    ]

-- `find_free_slot` returns the index of a free slot and moves the hint behind it; it fails with
-- `TableFull`, and changes nothing, only where every slot is valid. The
-- hint is within the table.
pub find_free_slot-cases :
    (t : CapabilityTable)
    → t.free_hint ≤ length t.slots
    → ((i : ℕ) × (i < length t.slots)
        × (is_valid (slot t i) ≡ false)
        × (find_free_slot t ≡ (record t { free_hint = i + 1 }, ok i)))
      ⊎ ((find_free_slot t ≡ (t, err table_full))
          × ((j : ℕ) → j < length t.slots → is_valid (slot t j) ≡ true))
unfolding find_free_slot
find_free_slot-cases t h = go _ refl _ refl
  where
    after :
        Searched t.slots t.free_hint
          (length t.slots)
          (first_free t.slots (length t.slots - t.free_hint) t.free_hint)
    after = first_free-Searched t.slots _ _ _ (omega arith)

    before : Searched t.slots 0 t.free_hint (first_free t.slots t.free_hint 0)
    before = first_free-Searched t.slots _ _ _ (omega arith)

    go :
        (a : Option ℕ)
        → first_free t.slots (length t.slots - t.free_hint) t.free_hint ≡ a
        → (b : Option ℕ) → first_free t.slots t.free_hint 0 ≡ b
        → ((i : ℕ) × (i < length t.slots)
            × (is_valid (slot t i) ≡ false)
            × (find_free_slot t ≡ (record t { free_hint = i + 1 }, ok i)))
          ⊎ ((find_free_slot t ≡ (t, err table_full))
              × ((j : ℕ) → j < length t.slots → is_valid (slot t j) ≡ true))
    go (some i) p b q =
        let f : Searched t.slots t.free_hint (length t.slots) (some i) = rw p at after in
        inl (i, f.1, f.2, rw (p, find_free_slot))
    go none p (some i) q =
        let f : Searched t.slots 0 t.free_hint (some i) = rw q at before in
        inl (i, omega arith, f.2, rw (p, find_free_slot) (rw q))
    go none p none q =
        let f : Searched t.slots t.free_hint (length t.slots) none = rw p at after in
        let g : Searched t.slots 0 t.free_hint none = rw q at before in
        inr (rw (p, find_free_slot) (rw q), λ j l. grind (arith, f j, g j))
