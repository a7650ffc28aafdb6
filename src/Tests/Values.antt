-- ===== src/Tests/Values.antt =====
-- Runs of `deep_equal`, the tagged forms, the opcodes and the environment.
use fx_ui.Base.{◌≤◌, ◌≡◌, ◌↔◌, true, some}
use fx_ui.Base.Bytes.{codes}
use fx_ui.Base.Int.{pos}
use fx_ui.Value.{Value, Values, Store, empty, entry}
use fx_ui.Value.Equal.{deep_equal}
use fx_ui.Value.Equal.Laws.{height, deep_equal_iff}
use fx_ui.Value.Marshal.{marshal_to_tagged, demarshal_from_tagged}
use fx_ui.Value.Marshal.Laws.{Survives, demarshal_from_tagged-marshal_to_tagged}

-- The list (1 "a").
abbrev short_list : Value
short_list = Value.cons (Value.number (pos 1)) (Value.cons (Value.string (codes "a")) Value.nil)

abbrev a_vector : Value
a_vector = Value.vector 0 2

-- A vector that holds itself.
abbrev cyclic : Store
cyclic a i = Value.vector 0 2

deep_equal_iff_example :
    (deep_equal cyclic short_list short_list ≡ true)
    ↔ ((short_list ≡ short_list) × (height short_list ≤ 1001))
deep_equal_iff_example = deep_equal_iff cyclic short_list short_list (tt, (tt, tt))

demarshal_from_tagged-marshal_to_tagged_example :
    (demarshal_from_tagged (marshal_to_tagged short_list) ≡ some short_list) ↔ Survives short_list
demarshal_from_tagged-marshal_to_tagged_example = demarshal_from_tagged-marshal_to_tagged short_list

abbrev one_entry : Values
one_entry = entry Value.nil empty
