-- ===== src/Incremental/Dependencies/Affected.antt =====
-- `affected_paths` gives exactly the files from which a changed one is reached.
use ferritex.Prelude.{
  ◌+◌, ◌≡◌, ◌↔◌, inl, inr, refl, ◌∙◌, sym, true, ◌||◌, List, [], ◌∷◌, ◌++◌, map, some, length,
  length-append, length-map, ◌=?◌, list_eq, nat_eq, Bool-cases, arith,
}
use ferritex.Prelude.HashMap
use ferritex.Prelude.HashMap.{HashMap}
use ferritex.Prelude.BTreeSet.{BTreeSet, contains}
use ferritex.Prelude.Order.{list_ord, nat_ord}
use ferritex.Incremental.Dependencies.{
  PathBuf, DependencyGraph, push_new, reverse_edges, affected_paths,
}
use ferritex.Incremental.Dependencies.Reverse.{has_edge, parents, contains-reverse_edges}
use ferritex.Incremental.Dependencies.Worklist.{
  missing-nothing, push_new-missing, contains-push_new, stack-push_new, from-push_new, spread_lem,
}

-- A file is changed, or depends on one that is affected.
pub data Reaches (g : DependencyGraph) (changed : List PathBuf) : PathBuf → Type 0 where
  is_changed : {p : PathBuf} → contains changed p ≡ true → Reaches g changed p
  depends :
      {p q : PathBuf} → has_edge g.edges p q ≡ true → Reaches g changed q → Reaches g changed p

abbrev sources : DependencyGraph → List PathBuf
sources g = map (λ edge. edge.0) g.edges

contains_append :
    (xs ys : List PathBuf) (p : PathBuf) → contains (xs ++ ys) p ≡ (contains xs p || contains ys p)
unfolding contains
contains_append [] ys p = refl
contains_append (x ∷ xs) ys p = ground (arith, contains_append xs ys p)

has_edge-sources :
    (edges : HashMap PathBuf (BTreeSet PathBuf)) (from to : PathBuf)
    → has_edge edges from to ≡ true
    → contains (map (λ edge. edge.0) edges) from ≡ true
unfolding has_edge contains
has_edge-sources [] from to h = h
has_edge-sources ((f, targets) ∷ edges) from to h = elim (Bool-cases (f =? from)) [
  | inl e ↦ ground arith
  | inr n ↦ ground (arith, has_edge-sources edges from to (ground arith))
]

parents-has_edge :
    (g : DependencyGraph) (from to : PathBuf)
    → contains (parents (reverse_edges [] g.edges) to) from ≡ has_edge g.edges from to
unfolding contains HashMap.get
parents-has_edge g from to = contains-reverse_edges g.edges [] to from ∙ ground arith

complete :
    (g : DependencyGraph) (changed : List PathBuf) (result : BTreeSet PathBuf)
    → ((q : PathBuf) → contains changed q ≡ true → contains result q ≡ true)
    → ((q : PathBuf)
        → contains result q ≡ true
        → (f : PathBuf) → contains (parents (reverse_edges [] g.edges) q) f ≡ true
        → contains result f ≡ true)
    → (p : PathBuf) → Reaches g changed p
    → contains result p ≡ true
complete g changed result more closed p (is_changed h) = more p h
complete g changed result more closed p (depends {q = q} h r) =
    closed q (complete g changed result more closed q r) p (parents-has_edge g p q ∙ h)

-- The search ends, with enough rounds, and a file is in its result if and only if it was changed or
-- depends on a changed file, through any number of edges.
pub affected_paths_lem :
    (g : DependencyGraph) (changed : List PathBuf)
    → (result : BTreeSet PathBuf) × (affected_paths g changed ≡ some result)
      × ((p : PathBuf) → (contains result p ≡ true) ↔ Reaches g changed p)
unfolding affected_paths contains
affected_paths_lem g changed =
    let reverse = reverse_edges [] g.edges in
    let all = changed ++ sources g in
    let start = push_new [] [] changed in
    let (result, e, (more, closed, sound)) =
      spread_lem all reverse (Reaches g changed)
        (λ path f h. ground (
          arith,
          contains_append changed (sources g) f,
          has_edge-sources g.edges f path (sym (parents-has_edge g f path) ∙ h),
        ))
        (λ path f r h. depends (sym (parents-has_edge g f path) ∙ h) r)
        (length changed + length g.edges) start.0 start.1
        (omega (
          arith,
          push_new-missing all changed [] []
              (λ f h. ground (arith, contains_append changed (sources g) f)),
          missing-nothing all,
          length-append changed (sources g),
          length-map g.edges (λ edge. edge.0),
        ))
        (λ q h. elim ((stack-push_new changed [] [] q).1 h) [
          | inl void ↦ absurd (ground arith)
          | inr on ↦ inl on
        ])
        (λ q h. is_changed (ground (arith, contains-push_new changed [] [] q)))
        (λ q h. elim (from-push_new changed [] [] q h) [
          | inl void ↦ absurd (ground arith)
          | inr on ↦ is_changed on
        ]) in
    (
      result,
      e,
      λ p. (
        sound p,
        complete g changed result
            (λ q h. more q (ground (arith, contains-push_new changed [] [] q)))
            (λ q h. elim (closed q h) [ inl void ↦ absurd (ground arith) | inr c ↦ c ]) p,
      ),
    )
