-- ===== src/Incremental/Dependencies.antt =====
-- crates/ferritex-core/src/incremental/api.rs: the graph of dependencies of files, and the files that
-- a change affects. A path compares as the list of its components.
pub mod Reverse
pub mod Worklist
pub mod Affected
mod Examples
use ferritex.Prelude.{
  ℕ, zero, suc, ◌+◌, Bool, true, false, List, [], ◌∷◌, ◌++◌, Str, Option, none, some, length, Eq,
  ◌=?◌, list_eq, nat_eq, if◌then◌else◌,
}
use ferritex.Prelude.HashMap
use ferritex.Prelude.HashMap.{HashMap}
use ferritex.Prelude.BTreeSet
use ferritex.Prelude.BTreeSet.{BTreeSet, contains}
use ferritex.Prelude.Order.{list_ord, nat_ord}

abbrev pub PathBuf : Type 0
PathBuf = List Str

pub record DependencyNode : Type 0 where
  pub path : PathBuf
  pub content_hash : ℕ

pub record DependencyGraph : Type 0 where
  pub nodes : HashMap PathBuf DependencyNode
  pub edges : HashMap PathBuf (BTreeSet PathBuf)

unfoldable pub record_node : DependencyGraph → PathBuf → ℕ → DependencyGraph
record_node g path content_hash = record g {
  nodes = HashMap.insert g.nodes path (record { path = path; content_hash = content_hash });
}

abbrev pub or_empty : Option (BTreeSet PathBuf) → BTreeSet PathBuf
or_empty none = []
or_empty (some s) = s

-- `entry(key).or_default().insert(value)`
unfoldable pub insert_at :
    HashMap PathBuf (BTreeSet PathBuf) → PathBuf → PathBuf → HashMap PathBuf (BTreeSet PathBuf)
insert_at m key value = HashMap.insert m key (BTreeSet.insert (or_empty (HashMap.get m key)) value)

unfoldable pub record_edge : DependencyGraph → PathBuf → PathBuf → DependencyGraph
record_edge g from to = record g { edges = insert_at g.edges from to }

-- The two loops that turn the edges round.
unfoldable pub reverse_targets :
    HashMap PathBuf (BTreeSet PathBuf) → PathBuf → List PathBuf → HashMap PathBuf (BTreeSet PathBuf)
reverse_targets m from [] = m
reverse_targets m from (target ∷ targets) = reverse_targets (insert_at m target from) from targets

unfoldable pub reverse_edges :
    HashMap PathBuf (BTreeSet PathBuf)
    → HashMap PathBuf (BTreeSet PathBuf)
    → HashMap PathBuf (BTreeSet PathBuf)
reverse_edges m [] = m
reverse_edges m ((from, targets) ∷ edges) = reverse_edges (reverse_targets m from targets) edges

-- The loop over changed paths or parents: what is not in `affected` enters it and the stack, whose
-- head is the last element of the `Vec`.
unfoldable pub push_new :
    BTreeSet PathBuf → List PathBuf → List PathBuf → BTreeSet PathBuf × List PathBuf
push_new affected stack [] = (affected, stack)
push_new affected stack (p ∷ ps) =
    if contains affected p
    then push_new affected stack ps
    else push_new (BTreeSet.insert affected p) (p ∷ stack) ps

-- `while let Some(path) = stack.pop()`; `none` if the fuel runs out.
unfoldable pub spread :
    ℕ
    → HashMap PathBuf (BTreeSet PathBuf)
    → BTreeSet PathBuf
    → List PathBuf
    → Option (BTreeSet PathBuf)
spread fuel reverse affected [] = some affected
spread zero reverse affected (path ∷ stack) = none
spread (suc fuel) reverse affected (path ∷ stack) =
    let (affected', stack') = push_new affected stack (or_empty (HashMap.get reverse path)) in
    spread fuel reverse affected' stack'

-- A round for every path that is changed or has an edge.
abbrev pub affected_from :
    ℕ
    → HashMap PathBuf (BTreeSet PathBuf)
    → BTreeSet PathBuf × List PathBuf
    → Option (BTreeSet PathBuf)
affected_from fuel reverse (affected, stack) = spread fuel reverse affected stack

unfoldable pub affected_paths : DependencyGraph → List PathBuf → Option (BTreeSet PathBuf)
affected_paths g changed =
    affected_from (length changed + length g.edges) (reverse_edges [] g.edges)
      (push_new [] [] changed)
