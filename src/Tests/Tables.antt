-- ===== src/Tests/Tables.antt =====
-- Tests of the manifest.
use lsmtree.Base.{◌≡◌, ◌↔◌, refl, [], ◌∷◌, false, some, In, arith}
use lsmtree.Base.Checked.{ok}
use lsmtree.Manifest.{
  TableMeta, Manifest, add_table, add_to_sorted_level, split_at_first_not, replace_tables,
  add_tables, erase_tables, is_removed, get_table_meta,
}
use lsmtree.Manifest.Codec.{FitsManifest, load_manifest, save_manifest, load_manifest-save_manifest}
use lsmtree.Manifest.Invariant.{IsWellFormed, replace_tables-IsWellFormed, get_table_meta_lem}
use lsmtree.Manifest.Levels.{IsRange}
use lsmtree.Manifest.Lookup.{Covers}
use lsmtree.Text.{compare_str}

-- Tables over "a".."c", "e".."g" and "c".."e".
abbrev a_to_c : TableMeta
a_to_c = record { number = 1; size = 10; min_key = b'a' ∷ []; max_key = b'c' ∷ [] }

abbrev e_to_g : TableMeta
e_to_g = record { number = 2; size = 10; min_key = b'e' ∷ []; max_key = b'g' ∷ [] }

abbrev c_to_e : TableMeta
c_to_e = record { number = 3; size = 10; min_key = b'c' ∷ []; max_key = b'e' ∷ [] }

-- Level 0 is empty, level 1 has two tables.
abbrev two_levels : Manifest
two_levels = record {
  levels = [] ∷ (a_to_c ∷ e_to_g ∷ []) ∷ [];
  next_table_number = 4;
  log_number = 0;
  last_seq = 9;
}

two_levels-IsWellFormed : IsWellFormed two_levels
unfolding compare_str
two_levels-IsWellFormed = (tt, ((refl, (refl, tt), (refl, tt, tt)), tt))

c_to_e-IsRange : IsRange c_to_e
unfolding compare_str
c_to_e-IsRange = refl

-- The overlapping table is refused; once both others are removed it is accepted.
add_run :
    ((add_table c_to_e 1 two_levels).0 ≡ false)
    × ((replace_tables (1 ∷ 2 ∷ []) (c_to_e ∷ []) 1 two_levels).1.levels ≡ [] ∷ (c_to_e ∷ []) ∷ [])
unfolding add_table replace_tables add_tables erase_tables is_removed add_to_sorted_level
    split_at_first_not compare_str
add_run = (refl, refl)

replace_tables-IsWellFormed_example :
    IsWellFormed (replace_tables (1 ∷ 2 ∷ []) (c_to_e ∷ []) 1 two_levels).1
replace_tables-IsWellFormed_example =
    replace_tables-IsWellFormed (1 ∷ 2 ∷ []) (c_to_e ∷ []) 1 two_levels (c_to_e-IsRange, tt)
      two_levels-IsWellFormed

get_table_meta_lem_example :
    (get_table_meta two_levels 1 (b'f' ∷ []) ≡ ok (some e_to_g))
    ↔ (In e_to_g (a_to_c ∷ e_to_g ∷ []) × Covers e_to_g (b'f' ∷ []))
get_table_meta_lem_example =
    get_table_meta_lem two_levels 0 (b'f' ∷ []) e_to_g two_levels-IsWellFormed (omega arith)

two_levels-FitsManifest : FitsManifest two_levels
two_levels-FitsManifest = record {
  count = omega arith;
  levels = (
    record { count = omega arith; tables = tt },
    (
      record {
        count = omega arith;
        tables = (
          record {
            number = omega arith;
            size = omega arith;
            min_key = omega arith;
            max_key = omega arith;
          },
          (
            record {
              number = omega arith;
              size = omega arith;
              min_key = omega arith;
              max_key = omega arith;
            },
            tt,
          ),
        );
      },
      tt,
    ),
  );
  next = omega arith;
  log = omega arith;
  last = omega arith;
}

load_manifest-save_manifest_example : load_manifest (save_manifest two_levels) ≡ ok two_levels
load_manifest-save_manifest_example = load_manifest-save_manifest two_levels two_levels-FitsManifest
