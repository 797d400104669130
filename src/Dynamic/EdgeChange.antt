-- ===== src/Dynamic/EdgeChange.antt =====
-- Edge changes and their normal form (src/dynamic/edge_change.cpp,
-- include/cycle_enum/dynamic/edge_change.hpp).
use cycle_enumeration_gpu.Prelude.{ℕ, ◌+◌, Bool, ◌&&◌, List, ltb, ◌==◌, if◌then◌else◌, length}
use cycle_enumeration_gpu.Prelude.Sort.{sort, unique}

pub record EdgeChange : Type 0 where
  pub source : ℕ
  pub target : ℕ

-- The `operator==` of changes.
abbrev pub same_change : EdgeChange → EdgeChange → Bool
same_change a b = a.source == b.source && a.target == b.target

-- The `operator<` of changes.
abbrev pub change_lt : EdgeChange → EdgeChange → Bool
change_lt a b = if a.source == b.source then ltb a.target b.target else ltb a.source b.source

pub record EdgeBatch : Type 0 where
  pub deletions : List EdgeChange
  pub insertions : List EdgeChange

pub total_changes : EdgeBatch → ℕ
total_changes b = length b.deletions + length b.insertions

unfoldable pub sort_and_dedup : List EdgeChange → List EdgeChange
unfolding sort unique
sort_and_dedup changes = unique same_change (sort change_lt changes)

unfoldable pub normalize : EdgeBatch → EdgeBatch
unfolding sort_and_dedup
normalize b = record {
  deletions = sort_and_dedup b.deletions;
  insertions = sort_and_dedup b.insertions;
}
