-- ===== src/Common/CString.antt =====
-- C strings as the list of their bytes before the NUL, and the library functions on them.
use eltex_education.Common.Tests.{ltb, leb, ◌==◌, if◌then◌else◌}
use eltex_education.Common.Int.{ℤ, pos, negsuc, ltb_ℤ}
use eltex_education.Common.Lists.{take}
use Prim.Native.Nat.{ℕ, ◌-◌}
use mathlib.Core.Path.{◌≡◌, refl}
use mathlib.Core.Bool.{Bool, true, false, not, ◌&&◌, ◌||◌}
use mathlib.Core.List.{List, [], ◌∷◌}
use native.Mathlib.Omega.{arith}

abbrev pub CString : Type 0
CString = List ℕ

-- `strcmp`: C fixes the sign alone.
unfoldable pub strcmp : CString → CString → ℤ
strcmp [] [] = pos 0
strcmp [] (y ∷ ys) = negsuc 0
strcmp (x ∷ xs) [] = pos 1
strcmp (x ∷ xs) (y ∷ ys) = if ltb x y then negsuc 0 else if ltb y x then pos 1 else strcmp xs ys

-- `strcmp(a, b) > 0`
abbrev pub follows : CString → CString → Bool
follows a b = ltb_ℤ (pos 0) (strcmp a b)

-- `strcmp(a, b) == 0`
abbrev pub same_text : CString → CString → Bool
same_text a b = not (ltb_ℤ (pos 0) (strcmp a b)) && not (ltb_ℤ (strcmp a b) (pos 0))

-- `snprintf(destination, size, "%s", source)` cuts the text to fit.
abbrev pub cut : ℕ → CString → CString
cut size s = take (size - 1) s

pub follows_irrefl : (a : CString) → follows a a ≡ false
unfolding strcmp
follows_irrefl [] = refl
follows_irrefl (x ∷ xs) = ground (arith, follows_irrefl xs)

pub follows_asymm : (a b : CString) → follows a b ≡ true → follows b a ≡ false
unfolding strcmp
follows_asymm [] [] h = cc
follows_asymm [] (y ∷ ys) h = cc
follows_asymm (x ∷ xs) [] h = refl
follows_asymm (x ∷ xs) (y ∷ ys) h = ground (arith, follows_asymm xs ys)

-- "Not after" is transitive.
pub follows_trans :
    (a b c : CString) → follows a b ≡ false → follows b c ≡ false → follows a c ≡ false
unfolding strcmp
follows_trans [] b [] h k = refl
follows_trans [] b (z ∷ zs) h k = refl
follows_trans (x ∷ xs) [] c h k = cc
follows_trans (x ∷ xs) (y ∷ ys) [] h k = cc
follows_trans (x ∷ xs) (y ∷ ys) (z ∷ zs) h k = ground (arith, follows_trans xs ys zs)

pub same_text→eq : (a b : CString) → same_text a b ≡ true → a ≡ b
unfolding strcmp
same_text→eq [] [] h = refl
same_text→eq [] (y ∷ ys) h = cc
same_text→eq (x ∷ xs) [] h = cc
same_text→eq (x ∷ xs) (y ∷ ys) h = ground (arith, same_text→eq xs ys)

-- The tests of <ctype.h> in the "C" locale.
abbrev pub isspace : ℕ → Bool
isspace c = c == 32 || (leb 9 c && leb c 13)

abbrev pub isdigit : ℕ → Bool
isdigit c = leb 48 c && leb c 57

abbrev pub isalnum : ℕ → Bool
isalnum c = isdigit c || (leb 65 c && leb c 90) || (leb 97 c && leb c 122)
