-- ===== src/Base/Text.antt =====
-- `str.strip` and `str.lower`, for ASCII and the space characters below U+0100.
use Prim.Native.Char.{Char, code}
use Prim.Native.String.append as Append
use Prim.Native.String.{◌++◌ as text_append}
use mathlib.Core.Bool.{true}
use mathlib.Core.Path.{◌≡◌, refl}
use mathlib.Core.Logic.{inl, inr}
use text.Mathlib.TextEquality.{eq_iff}
use it_asset_inventory.Base.Tests.{truthy, Bool-cases}
use Prim.Native.Nat.{◌-◌}
use Prim.Native.String.{String, char_at}
use mathlib.Core.Bool.{Bool, false, ◌&&◌, ◌||◌}
use mathlib.Core.List.{List, [], ◌∷◌}
use it_asset_inventory.Base.Tests.{leb, ◌==◌, str_eq, if◌then◌else◌}

is_space : Char → Bool
is_space c =
    leb 9 (code c) && leb (code c) 13
    || leb 28 (code c) && leb (code c) 32
    || code c == 133
    || code c == 160

-- `s.lstrip()`
lstrip : String → String
unfolding is_space
lstrip String.[] = ""
lstrip (String.◌∷◌ c s) = if is_space c then lstrip s else String.◌∷◌ c s

-- `s.rstrip()`
rstrip : String → String
unfolding is_space
rstrip String.[] = ""
rstrip (String.◌∷◌ c s) =
    let r = rstrip s in if str_eq r "" && is_space c then "" else String.◌∷◌ c r

unfoldable pub strip : String → String
unfolding lstrip rstrip
strip s = rstrip (lstrip s)

-- `s.isascii()`
unfoldable pub is_ascii : String → Bool
is_ascii String.[] = true
is_ascii (String.◌∷◌ c s) = leb (code c) 127 && is_ascii s

lower_char : Char → Char
lower_char c =
    if leb 65 (code c) && leb (code c) 90
    then char_at "abcdefghijklmnopqrstuvwxyz" (code c - 65)
    else c

unfoldable pub lower : String → String
unfolding lower_char
lower String.[] = ""
lower (String.◌∷◌ c s) = String.◌∷◌ (lower_char c) (lower s)

-- `s in (a, b, …)` for texts.
unfoldable pub one_of : String → List String → Bool
one_of s [] = false
one_of s (t ∷ ts) = str_eq s t || one_of s ts

-- A text with a character is not empty.
pub truthy-cons : (c : Char) (s : String) → truthy (String.◌∷◌ c s) ≡ true
truthy-cons c s = elim (Bool-cases (str_eq (String.◌∷◌ c s) "")) [
  | inr e ↦ rw e refl
  | inl e ↦ let q = (eq_iff (String.◌∷◌ c s) "").0 e in cc
]

pub truthy-append : (c : Char) (s t : String) → truthy (text_append (String.◌∷◌ c s) t) ≡ true
truthy-append c s t = rw (Append.cons c s t) (truthy-cons c (text_append s t))
