-- ===== src/Font/Tfm/Reader.antt =====
-- Reading bytes at an offset.
use ferritex.Prelude.{
  ℕ, zero, suc, ◌+◌, ◌-◌, ◌*◌, ◌/◌, ◌%◌, ◌≤◌, ◌≡◌, refl, ap, ◌∙◌, ◌&&◌, List, [], ◌∷◌, arith, leb,
  ltb, length, take, drop, length-take-le, length-drop_add, if◌then◌else◌, ℤ, pos, negsuc,
}
use ferritex.Font.Tfm.{usize_max, truncated, Result, ok, err, panic, ◌>>=◌, CharInfo}

unfoldable pub saturating_add : ℕ → ℕ → ℕ
saturating_add a b = if leb (a + b) usize_max then a + b else usize_max

unfoldable pub read_slice : List ℕ → ℕ → ℕ → Result (List ℕ)
unfolding saturating_add
read_slice bytes offset len =
    let end = saturating_add offset len in
    if leb offset end && leb end (length bytes)
    then ok (take (end - offset) (drop offset bytes))
    else err (truncated end (length bytes))

-- `from_be_bytes` on what stands at the first places of a slice.
abbrev u16_of : List ℕ → Result ℕ
u16_of (a ∷ b ∷ rest) = ok (256 * a + b)
u16_of (a ∷ []) = panic
u16_of [] = panic

abbrev pub u32_of_bytes : ℕ → ℕ → ℕ → ℕ → ℕ
u32_of_bytes a b c d = 16777216 * a + 65536 * b + 256 * c + d

abbrev u32_of : List ℕ → Result ℕ
u32_of (a ∷ b ∷ c ∷ d ∷ rest) = ok (u32_of_bytes a b c d)
u32_of _ = panic

abbrev pub signed32 : ℕ → ℤ
signed32 w = if ltb w 2147483648 then pos w else negsuc (4294967295 - w)

abbrev i32_of : List ℕ → Result ℤ
i32_of (a ∷ b ∷ c ∷ d ∷ rest) = ok (signed32 (u32_of_bytes a b c d))
i32_of _ = panic

unfoldable pub read_u16 : List ℕ → ℕ → Result ℕ
unfolding read_slice
read_u16 bytes offset = read_slice bytes offset 2 >>= u16_of

unfoldable pub read_u32 : List ℕ → ℕ → Result ℕ
unfolding read_slice
read_u32 bytes offset = read_slice bytes offset 4 >>= u32_of

unfoldable pub read_i32 : List ℕ → ℕ → Result ℤ
unfolding read_slice
read_i32 bytes offset = read_slice bytes offset 4 >>= i32_of

abbrev pub char_info_of : ℕ → ℕ → ℕ → ℕ → CharInfo
char_info_of a b c d = record {
  width_index = a;
  height_index = b / 16;
  depth_index = b % 16;
  italic_index = c / 4;
  tag = c % 4;
  remainder = d;
}

-- `chunks_exact(4)` with what is made of each chunk.
module _ {A : Type 0} where
  unfoldable pub chunks_exact : (ℕ → ℕ → ℕ → ℕ → A) → List ℕ → List A
  chunks_exact f (a ∷ b ∷ c ∷ d ∷ rest) = f a b c d ∷ chunks_exact f rest
  chunks_exact f _ = []

  pub length-chunks_exact :
      (f : ℕ → ℕ → ℕ → ℕ → A) (n : ℕ) (bytes : List ℕ)
      → length bytes ≡ n * 4
      → length (chunks_exact f bytes) ≡ n
  unfolding chunks_exact
  length-chunks_exact f zero [] h = refl
  length-chunks_exact f zero (a ∷ bytes) h = absurd (omega arith)
  length-chunks_exact f (suc n) [] h = absurd (omega arith)
  length-chunks_exact f (suc n) (a ∷ []) h = absurd (omega arith)
  length-chunks_exact f (suc n) (a ∷ b ∷ []) h = absurd (omega arith)
  length-chunks_exact f (suc n) (a ∷ b ∷ c ∷ []) h = absurd (omega arith)
  length-chunks_exact f (suc n) (a ∷ b ∷ c ∷ d ∷ rest) h =
      ap suc (length-chunks_exact f n rest (omega arith))

unfoldable pub read_char_infos : List ℕ → ℕ → ℕ → Result (List CharInfo)
unfolding read_slice chunks_exact
read_char_infos bytes offset count =
    read_slice bytes offset (count * 4) >>= λ slice. ok (chunks_exact char_info_of slice)

unfoldable pub read_fix_words : List ℕ → ℕ → ℕ → Result (List ℤ)
unfolding read_slice chunks_exact
read_fix_words bytes offset count = read_slice bytes offset (count * 4) >>= λ slice.
    ok (chunks_exact (λ a b c d. signed32 (u32_of_bytes a b c d)) slice)

-- Inside the bytes a slice is read as it stands.
pub read_slice_inside :
    (bytes : List ℕ) (offset len : ℕ)
    → offset + len ≤ length bytes
    → offset + len ≤ usize_max
    → read_slice bytes offset len ≡ ok (take len (drop offset bytes))
unfolding read_slice saturating_add
read_slice_inside bytes offset len h k =
    ground (arith, ap (λ n. take n (drop offset bytes)) (back offset len))
  where
    back : (a b : ℕ) → a + b - a ≡ b
    back a b = omega arith

byte_at : List ℕ → ℕ → ℕ
byte_at [] i = 0
byte_at (b ∷ bytes) zero = b
byte_at (b ∷ bytes) (suc i) = byte_at bytes i

-- The halfword at an offset.
unfoldable pub u16_at : List ℕ → ℕ → ℕ
unfolding byte_at
u16_at bytes offset = 256 * byte_at bytes offset + byte_at bytes (suc offset)

u16_of-drop :
    (offset : ℕ) (bytes : List ℕ)
    → offset + 2 ≤ length bytes
    → u16_of (take 2 (drop offset bytes)) ≡ ok (u16_at bytes offset)
unfolding u16_at byte_at
u16_of-drop zero [] h = absurd (omega arith)
u16_of-drop zero (a ∷ []) h = absurd (omega arith)
u16_of-drop zero (a ∷ b ∷ bytes) h = refl
u16_of-drop (suc offset) [] h = absurd (omega arith)
u16_of-drop (suc offset) (a ∷ bytes) h = u16_of-drop offset bytes (omega arith)

pub read_u16_inside :
    (bytes : List ℕ) (offset : ℕ)
    → offset + 2 ≤ length bytes
    → offset + 2 ≤ usize_max
    → read_u16 bytes offset ≡ ok (u16_at bytes offset)
unfolding read_u16
read_u16_inside bytes offset h k =
    ap (λ r. r >>= u16_of) (read_slice_inside bytes offset 2 h k) ∙ u16_of-drop offset bytes h

u32_of-drop :
    (offset : ℕ) (bytes : List ℕ)
    → offset + 4 ≤ length bytes
    → (v : ℕ) × (u32_of (take 4 (drop offset bytes)) ≡ ok v)
      × (i32_of (take 4 (drop offset bytes)) ≡ ok (signed32 v))
u32_of-drop zero [] h = absurd (omega arith)
u32_of-drop zero (a ∷ []) h = absurd (omega arith)
u32_of-drop zero (a ∷ b ∷ []) h = absurd (omega arith)
u32_of-drop zero (a ∷ b ∷ c ∷ []) h = absurd (omega arith)
u32_of-drop zero (a ∷ b ∷ c ∷ d ∷ bytes) h = (u32_of_bytes a b c d, refl, refl)
u32_of-drop (suc offset) [] h = absurd (omega arith)
u32_of-drop (suc offset) (a ∷ bytes) h = u32_of-drop offset bytes (omega arith)

pub read_u32_inside :
    (bytes : List ℕ) (offset : ℕ)
    → offset + 4 ≤ length bytes
    → offset + 4 ≤ usize_max
    → (v : ℕ) × (read_u32 bytes offset ≡ ok v) × (read_i32 bytes offset ≡ ok (signed32 v))
unfolding read_u32 read_i32
read_u32_inside bytes offset h k =
    let (v, p, q) = u32_of-drop offset bytes h in
    let e = read_slice_inside bytes offset 4 h k in
    (v, ap (λ r. r >>= u32_of) e ∙ p, ap (λ r. r >>= i32_of) e ∙ q)

length-slice :
    (bytes : List ℕ) (offset len : ℕ)
    → offset + len ≤ length bytes
    → length (take len (drop offset bytes)) ≡ len
length-slice bytes offset len h =
    length-take-le len (drop offset bytes) (length-drop_add offset len bytes h)

-- A table inside the bytes has as many entries as it should.
pub read_char_infos_inside :
    (bytes : List ℕ) (offset count : ℕ)
    → offset + count * 4 ≤ length bytes
    → offset + count * 4 ≤ usize_max
    → (infos : List CharInfo) × (read_char_infos bytes offset count ≡ ok infos)
      × (length infos ≡ count)
unfolding read_char_infos
read_char_infos_inside bytes offset count h k = (
  chunks_exact char_info_of (take (count * 4) (drop offset bytes)),
  ap (λ r. r >>= λ slice. ok (chunks_exact char_info_of slice))
      (read_slice_inside bytes offset (count * 4) h k),
  length-chunks_exact char_info_of count _ (length-slice bytes offset (count * 4) h),
)

pub read_fix_words_inside :
    (bytes : List ℕ) (offset count : ℕ)
    → offset + count * 4 ≤ length bytes
    → offset + count * 4 ≤ usize_max
    → (words : List ℤ) × (read_fix_words bytes offset count ≡ ok words) × (length words ≡ count)
unfolding read_fix_words
read_fix_words_inside bytes offset count h k =
    let word = λ (a b c d : ℕ). signed32 (u32_of_bytes a b c d) in
    (
      chunks_exact word (take (count * 4) (drop offset bytes)),
      ap (λ r. r >>= λ slice. ok (chunks_exact word slice))
          (read_slice_inside bytes offset (count * 4) h k),
      length-chunks_exact word count _ (length-slice bytes offset (count * 4) h),
    )
