-- ===== src/Incremental/Dependencies/Reverse.antt =====
-- What the reversed edges hold.
use ferritex.Prelude.{
  ◌≡◌, refl, ap, ◌∙◌, Bool, true, false, ◌||◌, ◌&&◌, List, [], ◌∷◌, Option, some, ◌=?◌, list_eq,
  list_beq_iff, nat_eq, if◌then◌else◌, arith,
}
use ferritex.Prelude.HashMap
use ferritex.Prelude.HashMap.{HashMap}
use ferritex.Prelude.BTreeSet
use ferritex.Prelude.BTreeSet.{BTreeSet, contains, contains-insert}
use ferritex.Prelude.Order.{list_ord, nat_ord}
use ferritex.Incremental.Dependencies.{PathBuf, or_empty, insert_at, reverse_targets, reverse_edges}

-- The edges lead from `from` to `to`: that file depends on this one.
unfoldable pub has_edge : HashMap PathBuf (BTreeSet PathBuf) → PathBuf → PathBuf → Bool
has_edge [] from to = false
has_edge ((f, targets) ∷ edges) from to =
    ((f =? from) && contains targets to) || has_edge edges from to

abbrev pub parents : HashMap PathBuf (BTreeSet PathBuf) → PathBuf → BTreeSet PathBuf
parents reverse path = or_empty (HashMap.get reverse path)

contains-if :
    (b : Bool) (v f : PathBuf) (s t : BTreeSet PathBuf) (o : Option (BTreeSet PathBuf))
    → (b ≡ true → contains s f ≡ contains (or_empty o) f)
    → contains (or_empty (if b then some (BTreeSet.insert s v) else o)) f
      ≡ ((b && (v =? f)) || contains (or_empty o) f)
contains-if true v f s t o h = ground (arith, contains-insert s v f, h refl)
contains-if false v f s t o h = refl

contains-insert_at :
    (m : HashMap PathBuf (BTreeSet PathBuf)) (key value to from : PathBuf)
    → contains (parents (insert_at m key value) to) from
      ≡ (((key =? to) && (value =? from)) || contains (parents m to) from)
unfolding insert_at
contains-insert_at m key value to from =
    ap (λ o. contains (or_empty o) from) (HashMap.get-insert m key _ to)
    ∙ contains-if (key =? to) value from (parents m key) [] (HashMap.get m to)
        (λ h. ap (λ k. contains (parents m k) from) ((list_beq_iff key to).0 h))

contains-reverse_targets :
    (targets : List PathBuf) (m : HashMap PathBuf (BTreeSet PathBuf)) (f to from : PathBuf)
    → contains (parents (reverse_targets m f targets) to) from
      ≡ (((f =? from) && contains targets to) || contains (parents m to) from)
unfolding reverse_targets contains
contains-reverse_targets [] m f to from = ground arith
contains-reverse_targets (t ∷ ts) m f to from = ground (
  arith,
  contains-reverse_targets ts (insert_at m t f) f to from,
  contains-insert_at m t f to from,
)

pub contains-reverse_edges :
    (edges m : HashMap PathBuf (BTreeSet PathBuf)) (to from : PathBuf)
    → contains (parents (reverse_edges m edges) to) from
      ≡ (has_edge edges from to || contains (parents m to) from)
unfolding reverse_edges has_edge
contains-reverse_edges [] m to from = refl
contains-reverse_edges ((f, targets) ∷ edges) m to from = ground (
  arith,
  contains-reverse_edges edges (reverse_targets m f targets) to from,
  contains-reverse_targets targets m f to from,
)
