-- ===== src/Font/Tfm/Lookup.antt =====
-- The lookups of a character in the metrics of an accepted file.
use ferritex.Prelude.{
  ℕ, zero, suc, ◌-◌, ◌≤◌, ◌<◌, ◌≡◌, ◌⊎◌, inl, inr, refl, sym, ap, ◌∙◌, subst, true, false, ◌||◌,
  none, some, List, [], ◌∷◌, Str, codes, length, get_elem?, ltb, ltb→lt, ◌==◌, ℤ, pos, arith,
  Bool-cases,
}
use ferritex.Font.Tfm.{
  usize_max, TfmError, char_code_out_of_range, invalid_index, Result, ok, err, ◌>>=◌, CharInfo,
  TfmMetrics,
}
use ferritex.Font.Tfm.Parser.{
  Directory, parse, char_info, or_panic, metric_from_table, dimension_or, fix_word_to_dimension,
  width, height, depth, italic_correction,
}
use ferritex.Font.Tfm.Validity.{HasSizes, directory_of, parse_total, step, then_eq, else_eq}

-- A lookup in a table gives the dimension of the entry, or says that the index is past the end.
abbrev pub LooksUp : TfmMetrics → Str → ℕ → List ℤ → Result ℤ → Type 0
LooksUp m table index values r =
    ((v : ℤ) × (get_elem? values index ≡ some v) × (r ≡ ok (fix_word_to_dimension m v)))
    ⊎ ((length values ≤ index) × (r ≡ err (invalid_index table index (length values))))

elem_cases :
    {A : Type 0} (xs : List A) (i : ℕ)
    → ((x : A) × (get_elem? xs i ≡ some x)) ⊎ ((length xs ≤ i) × (get_elem? xs i ≡ none))
elem_cases [] i = inr (omega arith, refl)
elem_cases (x ∷ xs) zero = inl (x, refl)
elem_cases (x ∷ xs) (suc i) = elim (elem_cases xs i) [
  | inl found ↦ inl found
  | inr (h, p) ↦ inr (omega arith, p)
]

table_LooksUp :
    (m : TfmMetrics) (table : Str) (index : ℕ) (values : List ℤ)
    → LooksUp m table index values (metric_from_table m table index values)
unfolding metric_from_table
table_LooksUp m table index values = elim (elem_cases values index) [
  | inl (v, p) ↦ inl (v, p, ap (dimension_or m _) p)
  | inr (h, p) ↦ inr (h, ap (dimension_or m _) p)
]

-- What the lookups of a character in the range give: a width index of 0 stands for no width.
pub record LooksUpAll (m : TfmMetrics) (code : ℕ) (info : CharInfo) : Type 0 where
  pub no_width : info.width_index ≡ 0 → width m code ≡ ok (pos 0)
  pub some_width :
      0 < info.width_index → LooksUp m (codes "widths") info.width_index m.widths (width m code)
  pub a_height : LooksUp m (codes "heights") info.height_index m.heights (height m code)
  pub a_depth : LooksUp m (codes "depths") info.depth_index m.depths (depth m code)
  pub an_italic :
      LooksUp m
        (codes "italic_corrections")
        info.italic_index
        m.italic_corrections
        (italic_correction m code)

abbrev pub IsOutOfRange : TfmMetrics → ℕ → Type 0
IsOutOfRange m code =
    let e = err (char_code_out_of_range code m.bc m.ec) in
    (width m code ≡ e) × (height m code ≡ e) × (depth m code ≡ e) × (italic_correction m code ≡ e)

looked_up :
    (m : TfmMetrics) (code : ℕ) (info : CharInfo)
    → char_info m code ≡ ok info
    → LooksUpAll m code info
unfolding width height depth italic_correction
looked_up m code info p = record {
  no_width = λ z. step _ _ _ _ p (rw z refl);
  some_width = λ z.
      subst (LooksUp m (codes "widths") info.width_index m.widths)
        (sym (step _ _ _ _ p (rw (not_zero info.width_index z) refl)))
        (table_LooksUp m (codes "widths") info.width_index m.widths);
  a_height =
      subst (LooksUp m _ _ m.heights) (sym (step _ _ _ _ p refl))
        (table_LooksUp m _ info.height_index m.heights);
  a_depth =
      subst (LooksUp m _ _ m.depths) (sym (step _ _ _ _ p refl))
        (table_LooksUp m _ info.depth_index m.depths);
  an_italic =
      subst (LooksUp m _ _ m.italic_corrections) (sym (step _ _ _ _ p refl))
        (table_LooksUp m _ info.italic_index m.italic_corrections);
}
  where
    not_zero : (n : ℕ) → 0 < n → (n == 0) ≡ false
    not_zero n z = ground arith

step_err :
    {A B : Type 0} (r : Result A) (e : TfmError) (f : A → Result B) → r ≡ err e → (r >>= f) ≡ err e
step_err r e f p = ap (λ x. x >>= f) p

out_of_range :
    (m : TfmMetrics) (code : ℕ) → (ltb code m.bc || ltb m.ec code) ≡ true → IsOutOfRange m code
unfolding width height depth italic_correction char_info
out_of_range m code t =
    let e =
      then_eq _ (err (char_code_out_of_range code m.bc m.ec))
        (or_panic (get_elem? m.char_infos (code - m.bc))) t in
    (step_err _ _ _ e, step_err _ _ _ e, step_err _ _ _ e, step_err _ _ _ e)

outside : (code bc ec : ℕ) → (ltb code bc || ltb ec code) ≡ true → (code < bc) ⊎ (ec < code)
outside code bc ec t = elim (Bool-cases (ltb code bc)) [
  | inl low ↦ inl (ltb→lt code bc low)
  | inr high ↦ inr (ground (arith, t, high))
]

ranged :
    {d : Directory} (m : TfmMetrics) (code : ℕ)
    → HasSizes d m
    → (((code < m.bc) ⊎ (m.ec < code)) × IsOutOfRange m code)
      ⊎ ((m.bc ≤ code)
          × (code ≤ m.ec)
          × ((info : CharInfo) × (get_elem? m.char_infos (code - m.bc) ≡ some info)
              × LooksUpAll m code info))
unfolding char_info
ranged m code s = elim (Bool-cases (ltb code m.bc || ltb m.ec code)) [
  | inl t ↦ inl (outside code m.bc m.ec t, out_of_range m code t)
  | inr f ↦ elim (elem_cases m.char_infos (code - m.bc)) [
    | inr (h, q) ↦ absurd (ground (arith, s.infos, s.first, s.last, h, f))
    | inl (info, q) ↦ inr (
      ground arith,
      ground arith,
      (info, q, looked_up m code info (else_eq _ _ _ f ∙ ap or_panic q)),
    )
  ]
]

-- In the metrics of an accepted file no lookup is out of bounds: outside the range of characters all
-- four say so, and inside it each gives the dimension of its entry or names the index past the table.
pub lookup_total :
    (bytes : List ℕ) (m : TfmMetrics) (code : ℕ)
    → length bytes ≤ usize_max
    → parse bytes ≡ ok m
    → (((code < m.bc) ⊎ (m.ec < code)) × IsOutOfRange m code)
      ⊎ ((m.bc ≤ code)
          × (code ≤ m.ec)
          × ((info : CharInfo) × (get_elem? m.char_infos (code - m.bc) ≡ some info)
              × LooksUpAll m code info))
lookup_total bytes m code k p = elim (parse_total bytes k) [
  | inr (n, (e, q)) ↦ absurd (refused e (sym q ∙ p))
  | inl (a, (m', q, s)) ↦
      ranged m code (subst (HasSizes (directory_of bytes)) (same m' m (sym q ∙ p)) s)
]
  where
    refused : (e : TfmError) → err e ≡ ok m → ⊥
    refused e r = cc

    same : (x y : TfmMetrics) → ok x ≡ ok y → x ≡ y
    same x y r = cc
