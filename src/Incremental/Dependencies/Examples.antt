-- ===== src/Incremental/Dependencies/Examples.antt =====
-- Tests of the graph of dependencies, and its theorem at concrete inputs.
use ferritex.Prelude.{◌≡◌, ◌↔◌, refl, true, some, [], ◌∷◌, codes, list_eq, list_beq, nat_eq}
use ferritex.Prelude.HashMap.{get, insert as map_insert}
use ferritex.Prelude.BTreeSet.{BTreeSet, contains, insert as set_insert}
use ferritex.Prelude.Order.{list_ord, nat_ord, list_lt}
use ferritex.Incremental.Dependencies.{
  PathBuf, DependencyGraph, record_node, record_edge, insert_at, reverse_targets, reverse_edges,
  push_new, spread, affected_paths,
}
use ferritex.Incremental.Dependencies.Affected.{Reaches, affected_paths_lem}

abbrev main_file : PathBuf
main_file = codes "main.tex" ∷ []

abbrev chapter : PathBuf
chapter = codes "chapter.tex" ∷ []

abbrev figure : PathBuf
figure = codes "figure.tex" ∷ []

abbrev graph : DependencyGraph
graph =
    record_edge
      (record_edge (record_node (record { nodes = []; edges = [] }) main_file 1) main_file chapter)
      chapter figure

chain_affected : affected_paths graph (figure ∷ []) ≡ some (chapter ∷ figure ∷ main_file ∷ [])
unfolding affected_paths record_node record_edge insert_at reverse_targets reverse_edges push_new
    spread contains get map_insert set_insert list_beq list_lt
chain_affected = refl

affected_paths_lem_example :
    (result : BTreeSet PathBuf) × (affected_paths graph (chapter ∷ []) ≡ some result)
    × ((p : PathBuf) → (contains result p ≡ true) ↔ Reaches graph (chapter ∷ []) p)
affected_paths_lem_example = affected_paths_lem graph (chapter ∷ [])
