-- ===== src/Base/Strings.antt =====
-- Python's `str` as the list of its code points, with the methods that the program calls.
-- Case mapping is that of the ASCII letters; other code points are left as they are.
use Prim.Native.Nat.{ℕ, ◌+◌, ◌-◌}
use Prim.Native.Char.{code}
use Prim.Native.String.{String}
use mathlib.Core.Path.{◌≡◌, refl, ap, ap₂, sym, ◌∙◌}
use mathlib.Core.Logic.{◌↔◌}
use mathlib.Core.Bool.{Bool, true, false, ◌&&◌, ◌||◌}
use mathlib.Core.List.{List, [], ◌∷◌, map, reverse}
use native.Mathlib.Omega.{arith}
use edpbilling_file_upload.Base.Tests.{leb, ◌==◌, if◌then◌else◌}
use edpbilling_file_upload.Base.Lists.{any}

abbrev pub Text : Type 0
Text = List ℕ

-- A literal.
abbrev pub codes : String → Text
codes String.[] = []
codes (String.◌∷◌ c s) = code c ∷ codes s

unfoldable pub text_eq : Text → Text → Bool
text_eq [] [] = true
text_eq (x ∷ xs) (y ∷ ys) = x == y && text_eq xs ys
text_eq [] (_ ∷ _) = false
text_eq (_ ∷ _) [] = false

text_eq_sound : (s t : Text) → text_eq s t ≡ true → s ≡ t
unfolding text_eq
text_eq_sound [] [] h = refl
text_eq_sound (x ∷ xs) (y ∷ ys) h = ground (arith, text_eq_sound xs ys)
text_eq_sound [] (_ ∷ _) h = cc
text_eq_sound (_ ∷ _) [] h = cc

pub text_eq_refl : (s : Text) → text_eq s s ≡ true
unfolding text_eq
text_eq_refl [] = refl
text_eq_refl (x ∷ xs) = ground (arith, text_eq_refl xs)

pub text_eq_iff : (s t : Text) → (text_eq s t ≡ true) ↔ (s ≡ t)
text_eq_iff s t = (text_eq_sound s t, λ e. ap (text_eq s) (sym e) ∙ text_eq_refl s)

-- `t in {…}`
unfoldable pub one_of : Text → List Text → Bool
unfolding text_eq
one_of t = any (text_eq t)

unfoldable pub lower_code : ℕ → ℕ
lower_code c = if leb 65 c && leb c 90 then c + 32 else c

unfoldable pub upper_code : ℕ → ℕ
upper_code c = if leb 97 c && leb c 122 then c - 32 else c

-- `str.lower` and `str.upper`
unfoldable pub lower : Text → Text
unfolding lower_code
lower = map lower_code

unfoldable pub upper : Text → Text
unfolding upper_code
upper = map upper_code

lower_code-upper_code : (c : ℕ) → lower_code (upper_code c) ≡ lower_code c
unfolding lower_code upper_code
lower_code-upper_code c = ground arith

pub lower-upper : (t : Text) → lower (upper t) ≡ lower t
unfolding lower upper
lower-upper [] = refl
lower-upper (c ∷ t) = ap₂ ◌∷◌ (lower_code-upper_code c) (lower-upper t)

-- `str.isspace` of one character.
unfoldable pub is_space : ℕ → Bool
is_space c =
    (leb 9 c && leb c 13)
    || (leb 28 c && leb c 32)
    || c == 0x85
    || c == 0xa0
    || c == 0x1680
    || (leb 0x2000 c && leb c 0x200a)
    || (leb 0x2028 c && leb c 0x2029)
    || c == 0x202f
    || c == 0x205f
    || c == 0x3000

-- `s.lstrip(chars)`, the characters given by a test
unfoldable pub lstrip_by : (ℕ → Bool) → Text → Text
lstrip_by p [] = []
lstrip_by p (c ∷ t) = let rest = lstrip_by p t in if p c then rest else c ∷ t

unfoldable pub strip_by : (ℕ → Bool) → Text → Text
unfolding lstrip_by
strip_by p t = reverse (lstrip_by p (reverse (lstrip_by p t)))

-- `s.strip()`
unfoldable pub strip : Text → Text
unfolding strip_by is_space
strip t = strip_by is_space t

-- `s.replace(chr(c), "")`
unfoldable pub remove_code : ℕ → Text → Text
remove_code c [] = []
remove_code c (d ∷ t) = let rest = remove_code c t in if d == c then rest else d ∷ rest

-- `s.startswith(prefix)`, the prefix first
unfoldable pub starts_with : Text → Text → Bool
starts_with [] s = true
starts_with (_ ∷ _) [] = false
starts_with (c ∷ prefix) (d ∷ s) = c == d && starts_with prefix s

-- `s.endswith(suffix)`, the suffix first
unfoldable pub ends_with : Text → Text → Bool
unfolding starts_with
ends_with suffix s = starts_with (reverse suffix) (reverse s)

-- `part in s`
unfoldable pub occurs_in : Text → Text → Bool
unfolding starts_with
occurs_in part [] = starts_with part []
occurs_in part (c ∷ s) = starts_with part (c ∷ s) || occurs_in part s

-- `if s:`
abbrev pub truthy : Text → Bool
truthy [] = false
truthy (_ ∷ _) = true

-- For tests: unfolding this opens the operations on text.
unfoldable pub text_ops : Unit {0}
unfolding text_eq one_of lower upper strip remove_code starts_with ends_with occurs_in
text_ops = tt
