-- ===== src/Tests/Freeze.antt =====
-- A freeze of a bootstrap list.
use fx_ui.Base.{◌≡◌, ◌≢◌, refl, true, false, none, some, replicate, [], ◌∷◌, arith}
use fx_ui.Base.Bytes.{codes}
use fx_ui.Value.{Value}
use fx_ui.Table.DefunTable.{DefunTable, boot_find}
use fx_ui.Table.Freeze
use fx_ui.Table.Freeze.{Frozen, frozen, aborted, unbuilt, defun_freeze}
use fx_ui.Table.Freeze.Laws.{Serves, defun_freeze_lem, defun_freeze-not_aborted}

abbrev three_keys : DefunTable
three_keys = record {
  runtime = false;
  bootstrap =
      (codes "hd", Value.prim (codes "hd"))
      ∷ (codes "tl", Value.prim (codes "tl"))
      ∷ (codes "cons", Value.symbol (codes "cons"))
      ∷ [];
  slots = [];
  table_size = 0;
  buckets = 0;
  displacement = [];
  table_cap = 4096;
  table_used = 3;
  marks = [];
}

abbrev frozen_table : DefunTable
frozen_table = record {
  runtime = true;
  bootstrap = [];
  slots =
      some (codes "cons", Value.symbol (codes "cons"))
      ∷ some (codes "hd", Value.prim (codes "hd"))
      ∷ some (codes "tl", Value.prim (codes "tl"))
      ∷ replicate 4093 none;
  table_size = 3;
  buckets = 1;
  displacement = 7 ∷ [];
  table_cap = 67;
  table_used = 3;
  marks = 2 ∷ 1 ∷ 0 ∷ [];
}

defun_freeze_lem_example : Serves three_keys frozen_table
unfolding defun_freeze Freeze.dedup Freeze.bucket Freeze.sift Freeze.sort_buckets
    Freeze.reverse_onto Freeze.order_buckets Freeze.clash Freeze.all_distinct
    Freeze.find_displacement Freeze.place_keys Freeze.fill_buckets Freeze.one_pass Freeze.build
    Freeze.repeated Freeze.check_slots fx_ui.Table.DefunTable.boot_set boot_find
    fx_ui.Table.Hash.hash_name_h0 fx_ui.Table.Hash.hash_name_h1 fx_ui.Table.Hash.fnv
    fx_ui.Base.Bytes.byte_eq
defun_freeze_lem_example =
    defun_freeze_lem 1 three_keys refl (refl, (refl, (refl, tt))) (omega arith) (omega arith)
      {t' = frozen_table} refl

defun_freeze-not_aborted_example : defun_freeze 1 three_keys ≢ aborted
unfolding boot_find fx_ui.Base.Bytes.byte_eq
defun_freeze-not_aborted_example =
    defun_freeze-not_aborted 1 three_keys refl (refl, (refl, (refl, tt))) (omega arith)
      (omega arith)
