-- ===== src/Parser/Registers/Examples.antt =====
-- Tests of the register store, and its theorems at concrete inputs.
use ferritex.Prelude.{◌≡◌, refl, true, false, List, [], ◌∷◌, pos}
use ferritex.Prelude.HashMap.{get, insert, remove, or_insert}
use ferritex.Parser.Registers.{
  RegisterStore, pdf_output, empty_store, push_group, pop_group, set_count, set_dimen,
  set_compat_int, get_count, get_compat_int,
}
use ferritex.Parser.Registers.Banks.{counts, dimens, fetch, store}
use ferritex.Parser.Registers.Scoping.{history}
use ferritex.Parser.Registers.Runs.{Command, begin, end, write, run, scope_run, history-run}
use ferritex.Parser.Registers.Groups.{group_restores, global_survives}

abbrev outer : RegisterStore
outer = set_count empty_store 7 (pos 5) false

-- A group with a group inside it.
abbrev nested : List Command
nested =
    write counts 7 (pos 9) false
    ∷ begin
    ∷ write counts 7 (pos 0) false
    ∷ write dimens 7 (pos 3) false
    ∷ end
    ∷ []

nested_reads :
    (get_count (run nested (push_group outer)) 7 ≡ pos 9)
    × (get_count (pop_group (run nested (push_group outer))) 7 ≡ pos 5)
unfolding run set_count set_dimen push_group pop_group get_count get insert remove or_insert
nested_reads = (refl, refl)

compat_default :
    (get_compat_int (set_compat_int empty_store pdf_output (pos 1) false) pdf_output ≡ pos 1)
    × (get_compat_int (set_compat_int empty_store pdf_output (pos 0) false) pdf_output ≡ pos 0)
unfolding set_compat_int get_compat_int get insert remove
compat_default = (refl, refl)

history-run_example :
    history counts 7 (run nested (push_group outer))
    ≡ scope_run counts 7 nested (history counts 7 (push_group outer))
history-run_example = history-run counts 7 nested (push_group outer)

group_restores_example :
    history counts 7 (pop_group (run nested (push_group outer))) ≡ history counts 7 outer
group_restores_example = group_restores counts 7 nested outer tt

abbrev ends : List Command
ends = end ∷ write counts 8 (pos 1) true ∷ end ∷ begin ∷ write dimens 7 (pos 2) false ∷ []

global_survives_example :
    fetch counts (run ends (store counts (run nested (push_group outer)) 7 (pos 4) true)) 7 ≡ pos 4
global_survives_example =
    global_survives counts 7 (pos 4) ends (run nested (push_group outer))
      (refl, (refl, (refl, (refl, (refl, tt)))))
