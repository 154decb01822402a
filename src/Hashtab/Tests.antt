-- ===== src/Hashtab/Tests.antt =====
-- Concrete runs of the hash table, with 16 buckets and keys that share one.
use vmwgfx.Prelude.{ℕ, ◌%◌, [], ◌∷◌, arith, ◌==◌, if◌then◌else◌}
use vmwgfx.Hashtab.Keys.{Pleased, just_insert_please-Pleased}
use vmwgfx.Hashtab.{Item, Table, insert_item, just_insert_please, remove_key}
use vmwgfx.Hashtab.Lookup.{IsTable, Inserted, insert_item-Inserted, Removed, remove_key-Removed}

abbrev low_bits : ℕ → ℕ
low_bits key = key % 16

abbrev item : (key owner : ℕ) → Item
item key owner = record { key = key; owner = owner }

-- keys 3 and 35 in bucket 3
abbrev chain_3 : Table
chain_3 = record {
  size = 16;
  order = 4;
  fill = 2;
  bucket = λ i. if i == 3 then item 3 7 ∷ item 35 8 ∷ [] else [];
}

chain_3-IsTable : IsTable chain_3
chain_3-IsTable i = ground arith

insert_item-Inserted_example :
    Inserted low_bits chain_3 (item 19 9) (insert_item low_bits chain_3 (item 19 9))
insert_item-Inserted_example = insert_item-Inserted low_bits chain_3 (item 19 9) chain_3-IsTable

remove_key-Removed_example : Removed low_bits chain_3 3 (remove_key low_bits chain_3 3)
remove_key-Removed_example = remove_key-Removed low_bits chain_3 3 chain_3-IsTable

-- Two-bit keys from 32 on: 35 is tried first, and taken.
just_insert_please-Pleased_example :
    Pleased low_bits chain_3 9 2 0 32 3 (just_insert_please low_bits chain_3 9 3 2 0 32)
just_insert_please-Pleased_example =
    just_insert_please-Pleased low_bits chain_3 9 2 0 32 3 chain_3-IsTable (omega arith)
