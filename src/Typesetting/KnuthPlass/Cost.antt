-- ===== src/Typesetting/KnuthPlass/Cost.antt =====
-- The metrics of a line and the demerits of a break.
use ferritex.Prelude.{
  ℕ, suc, ◌-◌, ◌^◌, Bool, true, false, ◌&&◌, not, Option, none, some, List, [], ◌∷◌, get_elem?, leb,
  ◌==◌, if◌then◌else◌, ℤ, pos, negsuc, ◌+ℤ◌, ltb_ℤ, int_eq, ◌=?◌,
}
use ferritex.Prelude.Integer.{◌-ℤ◌, ◌*ℤ◌, min_ℤ, max_ℤ, i64, i128, div_i128}
use ferritex.Typesetting.KnuthPlass.{
  Panics, ◌>>=◌, GlueOrder, normal, fil, fill, filll, GlueComponent, HListItem, char, glue, kern,
  inline_box, penalty, max_badness, BreakParams, CandidateKind, at_glue, at_penalty, terminal,
  BreakCandidate, Metrics, default_metrics,
}

abbrev pub is_terminal : CandidateKind → Bool
is_terminal terminal = true
is_terminal at_glue = false
is_terminal at_penalty = false

abbrev add_normal : ℤ → GlueComponent → GlueOrder → ℤ
add_normal total c normal = i64 (total +ℤ c.value)
add_normal total c fil = total
add_normal total c fill = total
add_normal total c filll = total

abbrev widened : Metrics → ℤ → Metrics
widened m width = record m { width = i64 (m.width +ℤ width) }

unfoldable pub next_metrics : Metrics → HListItem → Metrics
next_metrics m (char _ width _ _) = widened m width
next_metrics m (kern width) = widened m width
next_metrics m (inline_box width _ _ _) = widened m width
next_metrics m (glue width stretch shrink _ _) = record {
  width = i64 (m.width +ℤ width);
  stretch = add_normal m.stretch stretch stretch.order;
  shrink = add_normal m.shrink shrink shrink.order;
}
next_metrics m (penalty _) = m

-- The metrics of the items up to each position, from the ones before the list on.
unfoldable pub prefixes_from : Metrics → List HListItem → List Metrics
prefixes_from m [] = m ∷ []
prefixes_from m (item ∷ items) = m ∷ prefixes_from (next_metrics m item) items

abbrev pub build_prefix_metrics : List HListItem → List Metrics
build_prefix_metrics hlist = prefixes_from default_metrics hlist

unfoldable pub metrics_between : List Metrics → ℕ → ℕ → Panics Metrics
metrics_between prefix_metrics start end = do
  end_metrics ← get_elem? prefix_metrics end
  start_metrics ← get_elem? prefix_metrics start
  some (record {
    width = i64 (end_metrics.width -ℤ start_metrics.width);
    stretch = i64 (end_metrics.stretch -ℤ start_metrics.stretch);
    shrink = i64 (end_metrics.shrink -ℤ start_metrics.shrink);
  })

-- `saturating_abs` on a negative `i64`, and the value itself otherwise.
unfoldable pub saturating_abs : ℤ → ℤ
saturating_abs (pos n) = pos n
saturating_abs (negsuc n) = if n == 2 ^ 63 - 1 then pos (2 ^ 63 - 1) else pos (suc n)

-- `pow(3)` on `i128`
unfoldable pub cube : ℤ → ℤ
cube z = i128 (z *ℤ z *ℤ z)

-- What a line has to be stretched or shrunk by, against what it can be.
unfoldable pub adjusted : BreakParams → Bool → ℤ → ℤ → Panics (Bool × ℤ)
adjusted params stretching adjustment delta_abs =
    if not (ltb_ℤ (pos 0) adjustment)
    then (if stretching then some (false, pos 500000) else some (false, max_badness))
    else do
      quotient ← div_i128 (i128 (pos 100 *ℤ cube delta_abs)) (cube adjustment)
      let badness = min_ℤ quotient max_badness
      some (not (ltb_ℤ (max_ℤ params.tolerance (pos 0)) badness), i64 badness)

unfoldable pub adjustment_feasibility :
    ℤ → Metrics → CandidateKind → BreakParams → Panics (Bool × ℤ)
adjustment_feasibility line_delta metrics kind params =
    if not (ltb_ℤ line_delta (pos 0)) && is_terminal kind
    then some (true, pos 0)
    else if line_delta =? pos 0
    then some (true, pos 0)
    else if ltb_ℤ (pos 0) line_delta
    then adjusted params true metrics.stretch line_delta
    else adjusted params false metrics.shrink (saturating_abs line_delta)

unfoldable pub demerits : ℤ → ℤ → ℤ → ℤ
demerits line_penalty badness value =
    let base = i128 (line_penalty +ℤ badness) in
    let sum = i128 (base +ℤ value) in
    if not (ltb_ℤ value (pos 0))
    then i128 (sum *ℤ sum)
    else i128 (i128 (base *ℤ base) -ℤ i128 (value *ℤ value))

abbrev pub cost_if : BreakParams → BreakCandidate → Bool → Bool × ℤ → Option ℤ
cost_if params candidate allow_overfull (feasible, badness) =
    if not allow_overfull && not feasible
    then none
    else some (demerits params.line_penalty badness candidate.penalty)

unfoldable pub line_cost : Metrics → BreakCandidate → BreakParams → Bool → Panics (Option ℤ)
line_cost metrics candidate params allow_overfull = if metrics.width =? pos 0 then some none else do
  let line_delta = i64 (params.line_width -ℤ metrics.width)
  fitted ← adjustment_feasibility line_delta metrics candidate.kind params
  some (cost_if params candidate allow_overfull fitted)

unfoldable pub edge_cost :
    List Metrics → ℕ → BreakCandidate → BreakParams → Bool → Panics (Option ℤ)
edge_cost prefix_metrics line_start candidate params allow_overfull =
    if leb candidate.measure_end line_start then some none else do
      metrics ← metrics_between prefix_metrics line_start candidate.measure_end
      line_cost metrics candidate params allow_overfull
