-- ===== src/Tests/Bundles.antt =====
-- The loading of a bundle of two entries with one name, and the start with two primitives.
use fx_ui.Base.{
  ℕ, ◌≡◌, ◌≢◌, refl, false, All, List, [], ◌∷◌, arith, length, replicate, Option, none, some,
}
use fx_ui.Base.Bytes.{Bytes, codes}
use fx_ui.Base.Int.{pos}
use fx_ui.Value.{Code, Opcode, Value, no_operand, instr, stop, step}
use fx_ui.Parse.Reader.{is_space}
use fx_ui.Table
use fx_ui.Table.ValuesTable.{empty_table}
use fx_ui.Table.DefunTable.{DefunTable, defun_find}
use fx_ui.Bundle.{Loaded, parse_bundle}
use fx_ui.Bundle.Encode.{Entry, encode_bundle, EntryFits, latest, set_entries}
use fx_ui.Bundle.RoundTrip.{parse_bundle-encode_bundle}
use fx_ui.Bundle.Total.{parse_bundle_total}
use fx_ui.Bundle.Boot.{StdFiles, init_globals, vm_load_bundle}
use fx_ui.Bundle.Start.{Starts, vm_load_bundle_lem}

abbrev blank : Bytes
blank = codes " "

abbrev returning : Code
returning = step (instr Opcode.return no_operand stop (pos 0)) stop

abbrev two_entries : List Entry
two_entries = (codes "f", stop) ∷ (codes "f", returning) ∷ []

abbrev no_defuns : DefunTable
no_defuns = record {
  runtime = false;
  bootstrap = [];
  slots = [];
  table_size = 0;
  buckets = 0;
  displacement = [];
  table_cap = 4096;
  table_used = 0;
  marks = [];
}

two_entries-EntryFits : All EntryFits two_entries
two_entries-EntryFits = (
  ((omega arith, (omega arith, tt)), tt),
  (((omega arith, (omega arith, tt)), (((refl, refl), refl), tt)), tt),
)

parse_bundle-encode_bundle_example :
    (parse_bundle (encode_bundle blank two_entries) no_defuns
      ≡ Loaded.loaded 2 (set_entries two_entries no_defuns))
    × ((m : Bytes)
        → defun_find m (set_entries two_entries no_defuns)
          ≡ latest m two_entries (defun_find m no_defuns))
unfolding is_space
parse_bundle-encode_bundle_example =
    parse_bundle-encode_bundle blank two_entries no_defuns (refl, tt) two_entries-EntryFits refl

parse_bundle_total_example : parse_bundle (codes "(([1:s]f(c()") no_defuns ≢ Loaded.starved
parse_bundle_total_example = parse_bundle_total (codes "(([1:s]f(c()") no_defuns

abbrev std_files : StdFiles
std_files = record { stdin = 1; stdout = 2; stderr = 3 }

abbrev two_prims : List Bytes
two_prims = codes "hd" ∷ codes "tl" ∷ []

abbrev with_prims : DefunTable
with_prims = record no_defuns {
  bootstrap = (codes "hd", Value.prim (codes "hd")) ∷ (codes "tl", Value.prim (codes "tl")) ∷ [];
  table_used = 2;
}

two_prims_set : init_globals two_prims no_defuns ≡ Table.DefunTable.Stored.stored with_prims
unfolding init_globals fx_ui.Table.DefunTable.defun_set fx_ui.Table.DefunTable.set_bootstrap
    fx_ui.Table.DefunTable.boot_set fx_ui.Table.DefunTable.boot_find fx_ui.Base.Bytes.byte_eq
two_prims_set = refl

vm_load_bundle_lem_example :
    Starts std_files two_prims two_entries
      (vm_load_bundle std_files two_prims 30 (encode_bundle [] two_entries) with_prims empty_table)
vm_load_bundle_lem_example =
    vm_load_bundle_lem std_files two_prims 30 (codes "f", stop) ((codes "f", returning) ∷ [])
      no_defuns with_prims two_entries-EntryFits refl refl two_prims_set (omega arith)
