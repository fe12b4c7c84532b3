-- ===== src/Prelude/Bytes.antt =====
-- Go strings as lists of bytes: comparison, `strings.TrimSpace` and the test for a blank text.
use Prim.Native.Char.{code}
use Prim.Native.Nat.{ℕ, zero, suc, ◌-◌}
use Prim.Native.String.{String}
use mathlib.Core.Path.{◌≡◌, refl}
use mathlib.Core.Logic.{◌≢◌, ◌↔◌}
use mathlib.Core.Bool.{Bool, true, false, ◌&&◌, ◌||◌}
use mathlib.Core.List.{List, [], ◌∷◌, reverse}
use native.Mathlib.Omega.{arith}
use distributed_wallet_api.Prelude.Tests.{leb, ◌==◌, if◌then◌else◌}

abbrev pub Text : Type 0
Text = List ℕ

-- The bytes of an ASCII literal.
abbrev pub codes : String → Text
codes String.[] = []
codes (String.◌∷◌ c s) = code c ∷ codes s

abbrev pub length {ℓ} : {A : Type ℓ} → List A → ℕ
length [] = 0
length (x ∷ xs) = suc (length xs)

unfoldable pub text_eq : Text → Text → Bool
text_eq [] [] = true
text_eq [] (d ∷ t) = false
text_eq (c ∷ s) [] = false
text_eq (c ∷ s) (d ∷ t) = c == d && text_eq s t

pub text_eq_iff : (s t : Text) → (text_eq s t ≡ true) ↔ (s ≡ t)
unfolding text_eq
text_eq_iff [] [] = ground arith
text_eq_iff [] (d ∷ t) = ground arith
text_eq_iff (c ∷ s) [] = ground arith
text_eq_iff (c ∷ s) (d ∷ t) = ground (arith, text_eq_iff s t)

pub text_eq_refl : (s : Text) → text_eq s s ≡ true
text_eq_refl s = (text_eq_iff s s).1 refl

-- `s == ""`
abbrev pub is_empty : Text → Bool
is_empty [] = true
is_empty (_ ∷ _) = false

-- `unicode.IsSpace`, by the bytes of the UTF-8 form: one byte, two bytes (U+0085, U+00A0) or three
-- (U+1680, U+2000 to U+200A, U+2028, U+2029, U+202F, U+205F, U+3000).
abbrev is_space : ℕ → Bool
is_space c = c == 9 || (c == 10 || (c == 11 || (c == 12 || (c == 13 || c == 32))))

abbrev is_space_of_two : ℕ → ℕ → Bool
is_space_of_two a b = a == 194 && (b == 133 || b == 160)

abbrev is_punctuation_space : ℕ → Bool
is_punctuation_space c = (leb 128 c && leb c 138) || (c == 168 || (c == 169 || c == 175))

abbrev is_space_of_three : ℕ → ℕ → ℕ → Bool
is_space_of_three a b c =
    (a == 225 && (b == 154 && c == 128))
    || ((a == 226 && ((b == 128 && is_punctuation_space c) || (b == 129 && c == 159)))
        || (a == 227 && (b == 128 && c == 128)))

-- The bytes of the white space at the start of a text, 0 if there is none.
space_width : Text → ℕ
space_width [] = 0
space_width (a ∷ []) = if is_space a then 1 else 0
space_width (a ∷ b ∷ []) = if is_space a then 1 else if is_space_of_two a b then 2 else 0
space_width (a ∷ b ∷ c ∷ s) =
    if is_space a
    then 1
    else if is_space_of_two a b
    then 2
    else if is_space_of_three a b c
    then 3
    else 0

-- The same of the end of a text, whose bytes stand in the reverse order.
last_space_width : Text → ℕ
last_space_width [] = 0
last_space_width (a ∷ []) = if is_space a then 1 else 0
last_space_width (a ∷ b ∷ []) = if is_space a then 1 else if is_space_of_two b a then 2 else 0
last_space_width (a ∷ b ∷ c ∷ s) =
    if is_space a
    then 1
    else if is_space_of_two b a
    then 2
    else if is_space_of_three c b a
    then 3
    else 0

-- Leaves out what is left of a white space, then the white space after it.
trim_from : (Text → ℕ) → ℕ → Text → Text
trim_from width k [] = []
trim_from width (suc k) (c ∷ s) = trim_from width k s
trim_from width zero (c ∷ s) =
    let n = width (c ∷ s) in let rest = trim_from width (n - 1) s in if n == 0 then c ∷ s else rest

-- `strings.TrimSpace`
unfoldable pub trim_space : Text → Text
unfolding trim_from space_width last_space_width
trim_space s = reverse (trim_from last_space_width 0 (reverse (trim_from space_width 0 s)))

-- `strings.TrimSpace(s) == ""`
unfoldable pub is_blank : Text → Bool
unfolding trim_space
is_blank s = is_empty (trim_space s)

-- A text that is not blank is not empty.
pub is_blank-empty : (s : Text) → is_blank s ≡ false → is_empty s ≡ false
unfolding is_blank
is_blank-empty [] h = h
is_blank-empty (_ ∷ _) h = refl

pub text_differs : (s t : Text) → text_eq s t ≡ false → s ≢ t
text_differs s t h e = ground (arith, text_eq_iff s t)
