-- ===== src/Config/Tests.antt =====
-- Runs of the code of Config on the shape with 16 buckets and trees of height 4.
use gobeansdb.Base.{◌≡◌, refl, arith, false, some}
use gobeansdb.Config.{HStoreConfig, init_tree}
use gobeansdb.Config.Shape.{Covers, init_tree-Covers}

abbrev conf : HStoreConfig
conf = record {
  num_bucket = 16;
  data_file_max = 4000;
  check_vhash = false;
  no_gc_days = 0;
  merge_interval = 1;
  split_cap = 100;
  tree_height = 4;
  tree_depth = 0;
  tree_key_hash_len = 0;
  tree_key_hash_mask = 0;
}

init_tree-Covers_example :
    (c' : HStoreConfig) × (init_tree conf ≡ some c') × (c'.tree_depth ≡ 1) × Covers c'
init_tree-Covers_example = init_tree-Covers conf 1 refl (omega arith) (omega arith)
