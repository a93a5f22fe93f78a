-- ===== src/Font/Tfm/Validity.antt =====
-- Which files are accepted, and that no lookup in what was read is out of bounds.
use ferritex.Prelude.{
  ℕ, ◌+◌, ◌-◌, ◌*◌, ◌≤◌, ◌<◌, ◌≡◌, ◌⊎◌, inl, inr, refl, sym, ap, ◌∙◌, subst, Bool, true, false, not,
  some, List, length, ltb, ◌==◌, if◌then◌else◌, arith, Bool-cases,
}
use ferritex.Font.Tfm.{usize_max, TfmError, Result, ok, err, ◌>>=◌, TfmMetrics}
use ferritex.Font.Tfm.Reader.{
  u16_at, read_u16, read_u16_inside, read_u32_inside, read_char_infos_inside, read_fix_words_inside,
}
use ferritex.Font.Tfm.Parser.{
  Directory, read_directory, expected_lf, read_tables, check_sizes, check_directory, parse,
}

-- The directory as it stands in the bytes.
abbrev pub directory_of : List ℕ → Directory
directory_of bytes = record {
  lf = u16_at bytes 0;
  lh = u16_at bytes 2;
  bc = u16_at bytes 4;
  ec = u16_at bytes 6;
  nw = u16_at bytes 8;
  nh = u16_at bytes 10;
  nd = u16_at bytes 12;
  ni = u16_at bytes 14;
  nl = u16_at bytes 16;
  nk = u16_at bytes 18;
  ne = u16_at bytes 20;
  np = u16_at bytes 22;
}

pub step {ℓ} :
    {A : Type 0} {B : Type ℓ} (r : Result A) (a : A) (f : A → Result B) (s : Result B)
    → r ≡ ok a
    → f a ≡ s
    → (r >>= f) ≡ s
step r a f s p q = ap (λ x. x >>= f) p ∙ q

read_directory_inside :
    (bytes : List ℕ)
    → 24 ≤ length bytes
    → length bytes ≤ usize_max
    → read_directory bytes ≡ ok (directory_of bytes)
unfolding read_directory
read_directory_inside bytes h k = step _ _ _ _ (at 0 (omega arith)) (
    step _ _ _ _ (at 2 (omega arith)) (
      step _ _ _ _ (at 4 (omega arith)) (
        step _ _ _ _ (at 6 (omega arith)) (
          step _ _ _ _ (at 8 (omega arith)) (
            step _ _ _ _ (at 10 (omega arith)) (
              step _ _ _ _ (at 12 (omega arith)) (
                step _ _ _ _ (at 14 (omega arith)) (
                  step _ _ _ _ (at 16 (omega arith)) (
                    step _ _ _ _ (at 18 (omega arith)) (
                      step _ _ _ _ (at 20 (omega arith))
                        (step _ _ _ _ (at 22 (omega arith)) refl)))))))))))
  where
    at : (i : ℕ) → i ≤ 22 → read_u16 bytes i ≡ ok (u16_at bytes i)
    at i l = read_u16_inside bytes i (omega arith) (omega arith)

-- The metrics have the directory's character range, and each table the size that it gives.
pub record HasSizes (d : Directory) (m : TfmMetrics) : Type 0 where
  pub first : m.bc ≡ d.bc
  pub last : m.ec ≡ d.ec
  pub infos : d.bc + length m.char_infos ≡ d.ec + 1
  pub width_count : length m.widths ≡ d.nw
  pub height_count : length m.heights ≡ d.nh
  pub depth_count : length m.depths ≡ d.nd
  pub italic_count : length m.italic_corrections ≡ d.ni

-- The sizes in the directory agree with one another and with the length of the file.
pub record IsConsistent (bytes : List ℕ) (d : Directory) : Type 0 where
  pub header : 2 ≤ d.lh
  pub ordered : d.bc ≤ d.ec
  pub narrow : d.ec < d.bc + 65535
  pub words :
      d.lf ≡ 6 + d.lh + (d.ec - d.bc + 1) + d.nw + d.nh + d.nd + d.ni + d.nl + d.nk + d.ne + d.np
  pub size : length bytes ≡ d.lf * 4

read_tables_inside :
    (bytes : List ℕ) (d : Directory)
    → length bytes ≤ usize_max
    → IsConsistent bytes d
    → (m : TfmMetrics) × (read_tables bytes d (d.ec - d.bc + 1) ≡ ok m) × HasSizes d m
unfolding read_tables
read_tables_inside bytes d k c =
    let count = d.ec - d.bc + 1 in
    let a = 24 + d.lh * 4 in
    let b = a + count * 4 in
    let e = b + d.nw * 4 in
    let f = e + d.nh * 4 in
    let g = f + d.nd * 4 in
    let (v0, p0, q0) = read_u32_inside bytes 24 (omega arith) (omega arith) in
    let (v1, p1, q1) = read_u32_inside bytes 28 (omega arith) (omega arith) in
    let (infos, pi, li) = read_char_infos_inside bytes a count (omega arith) (omega arith) in
    let (ws, pw, lw) = read_fix_words_inside bytes b d.nw (omega arith) (omega arith) in
    let (hs, ph, lh) = read_fix_words_inside bytes e d.nh (omega arith) (omega arith) in
    let (ds, pd, ld) = read_fix_words_inside bytes f d.nd (omega arith) (omega arith) in
    let (is, ps, ls) = read_fix_words_inside bytes g d.ni (omega arith) (omega arith) in
    (
      _,
      step _ _ _ _ p0 (
          step _ _ _ _ q1 (
            step _ _ _ _ pi
              (step _ _ _ _ pw (step _ _ _ _ ph (step _ _ _ _ pd (step _ _ _ _ ps refl)))))),
      record {
        first = refl;
        last = refl;
        infos = omega arith;
        width_count = lw;
        height_count = lh;
        depth_count = ld;
        italic_count = ls;
      },
    )

pub then_eq {ℓ} : {A : Type ℓ} (b : Bool) (x y : A) → b ≡ true → (if b then x else y) ≡ x
then_eq true x y h = refl
then_eq false x y h = absurd (cc)

pub else_eq {ℓ} : {A : Type ℓ} (b : Bool) (x y : A) → b ≡ false → (if b then x else y) ≡ y
else_eq true x y h = absurd (cc)
else_eq false x y h = refl

-- A file is accepted with metrics of the sizes in its directory, or it is refused with an error.
abbrev Outcome : List ℕ → Directory → Type 0 → Result TfmMetrics → Type 0
Outcome bytes d Accepted r =
    (Accepted × ((m : TfmMetrics) × (r ≡ ok m) × HasSizes d m))
    ⊎ ((Accepted → ⊥) × ((e : TfmError) × (r ≡ err e)))

sizes-Outcome :
    (bytes : List ℕ) (d : Directory)
    → length bytes ≤ usize_max
    → 2 ≤ d.lh
    → d.bc ≤ d.ec
    → d.ec < d.bc + 65535
    → Outcome bytes d (IsConsistent bytes d) (check_sizes bytes d (some (d.ec - d.bc + 1)))
unfolding check_sizes
sizes-Outcome bytes d k h o n = elim (Bool-cases (d.lf == expected_lf d (d.ec - d.bc + 1))) [
  | inr bad ↦ inr (λ c. absurd (ground (arith, c.words)), (_, then_eq _ _ _ (ap not bad)))
  | inl words ↦ elim (Bool-cases (ltb (length bytes) (d.lf * 4))) [
    | inl short ↦ inr (
      λ c. absurd (ground (arith, c.size)),
      (_, else_eq _ _ _ (ap not words) ∙ then_eq _ _ _ short),
    )
    | inr enough ↦ elim (Bool-cases (length bytes == d.lf * 4)) [
      | inr long ↦ inr (
        λ c. absurd (ground (arith, c.size)),
        (_, else_eq _ _ _ (ap not words) ∙ else_eq _ _ _ enough ∙ then_eq _ _ _ (ap not long)),
      )
      | inl exact ↦
          let c : IsConsistent bytes d = record {
            header = h;
            ordered = o;
            narrow = n;
            words = ground arith;
            size = ground arith;
          } in
          let (m, p, s) = read_tables_inside bytes d k c in
          inl (
            c,
            (
              m,
              else_eq _ _ _ (ap not words)
                  ∙ else_eq _ _ _ enough
                  ∙ else_eq _ _ _ (ap not exact)
                  ∙ p,
              s,
            ),
          )
    ]
  ]
]

directory-Outcome :
    (bytes : List ℕ) (d : Directory)
    → length bytes ≤ usize_max
    → Outcome bytes d (IsConsistent bytes d) (check_directory bytes d)
unfolding check_sizes
directory-Outcome bytes d k = elim (Bool-cases (ltb d.lh 2)) [
  | inl small ↦ inr (λ c. absurd (ground (arith, c.header)), (_, then_eq _ _ _ small))
  | inr header ↦ elim (Bool-cases (ltb d.ec d.bc)) [
    | inl bad ↦ inr (
      λ c. absurd (ground (arith, c.ordered)),
      (_, else_eq _ _ _ header ∙ ap (check_sizes bytes d) (then_eq _ _ _ bad)),
    )
    | inr ordered ↦ elim (Bool-cases (ltb (d.ec - d.bc) 65535)) [
      | inr wide ↦ inr (
        λ c. absurd (ground (arith, c.narrow)),
        (
          _,
          else_eq _ _ _ header
              ∙ ap (check_sizes bytes d) (else_eq _ _ _ ordered ∙ else_eq _ _ _ wide),
        ),
      )
      | inl narrow ↦
          subst (Outcome bytes d (IsConsistent bytes d))
            (sym (
              else_eq _ _ _ header
              ∙ ap (check_sizes bytes d) (else_eq _ _ _ ordered ∙ then_eq _ _ _ narrow)))
            (sizes-Outcome bytes d k (ground arith) (ground arith) (ground arith))
    ]
  ]
]

-- The file has a directory, and its sizes are consistent.
abbrev pub IsAccepted : List ℕ → Type 0
IsAccepted bytes = (24 ≤ length bytes) × IsConsistent bytes (directory_of bytes)

-- `parse` returns on every sequence of bytes that fits in memory, without an index out of bounds: if
-- there is a directory whose sizes agree with one another and with the length, metrics with tables of
-- these sizes, and otherwise an error.
pub parse_total :
    (bytes : List ℕ)
    → length bytes ≤ usize_max
    → (IsAccepted bytes
        × ((m : TfmMetrics) × (parse bytes ≡ ok m) × HasSizes (directory_of bytes) m))
      ⊎ ((IsAccepted bytes → ⊥) × ((e : TfmError) × (parse bytes ≡ err e)))
unfolding parse
parse_total bytes k = elim (Bool-cases (ltb (length bytes) 24)) [
  | inl short ↦ inr (λ c. absurd (ground (arith, c.0)), (_, then_eq _ _ _ short))
  | inr enough ↦
      let d = directory_of bytes in
      let e : parse bytes ≡ check_directory bytes d =
        else_eq _ _ _ enough
        ∙ ap (λ r. r >>= check_directory bytes) (read_directory_inside bytes (ground arith) k) in
      elim (directory-Outcome bytes d k) [
        | inl (c, (m, p, s)) ↦ inl ((ground arith, c), (m, e ∙ p, s))
        | inr (n, (x, p)) ↦ inr (λ a. n a.1, (x, e ∙ p))
      ]
]
