-- ===== src/Prelude/Text.antt =====
-- JavaScript strings as lists of UTF-16 code units, which `length`, `===` and the patterns read.
use Prim.Native.Nat.{ℕ}
use Prim.Native.Char.{code}
use Prim.Native.String.{String}
use mathlib.Core.Path.{◌≡◌, refl}
use mathlib.Core.Logic.{◌↔◌}
use mathlib.Core.Bool.{Bool, true, false, ◌&&◌, ◌||◌}
use mathlib.Core.List.{List, [], ◌∷◌}
use native.Mathlib.Omega.{arith}
use csboard_extension.Prelude.Tests.{leb, ◌==◌}
use csboard_extension.Prelude.Lists.{length, all}

abbrev pub Text : Type 0
Text = List ℕ

-- A literal of the source. All of them lie in the plane where a code point is one code unit.
abbrev pub codes : String → Text
codes String.[] = []
codes (String.◌∷◌ c s) = code c ∷ codes s

-- `===` on strings.
infix 50 ◌===◌
unfoldable pub ◌===◌ : Text → Text → Bool
[] === [] = true
[] === (y ∷ ys) = false
(x ∷ xs) === [] = false
(x ∷ xs) === (y ∷ ys) = x == y && xs === ys

pub ===_sound : (s t : Text) → (s === t) ≡ true → s ≡ t
unfolding ◌===◌
===_sound [] [] h = refl
===_sound [] (y ∷ ys) h = cc
===_sound (x ∷ xs) [] h = cc
===_sound (x ∷ xs) (y ∷ ys) h = ground (arith, ===_sound xs ys)

pub ===_refl : (s : Text) → (s === s) ≡ true
unfolding ◌===◌
===_refl [] = refl
===_refl (x ∷ xs) = ground (arith, ===_refl xs)

pub ===_iff : (s t : Text) → ((s === t) ≡ true) ↔ (s ≡ t)
===_iff s t = (===_sound s t, λ e. rw e (===_refl t))

-- Membership of a list of strings: `Set.prototype.has`, `Array.prototype.includes`.
unfoldable pub includes : List Text → Text → Bool
includes [] s = false
includes (t ∷ ts) s = s === t || includes ts s

-- `String.prototype.startsWith`
unfoldable pub starts_with : Text → Text → Bool
starts_with [] s = true
starts_with (c ∷ prefix) [] = false
starts_with (c ∷ prefix) (d ∷ s) = c == d && starts_with prefix s

-- Character classes of the patterns.
abbrev pub is_digit : ℕ → Bool
is_digit c = leb b'0' c && leb c b'9'

abbrev pub is_upper : ℕ → Bool
is_upper c = leb b'A' c && leb c b'Z'

abbrev pub is_lower : ℕ → Bool
is_lower c = leb b'a' c && leb c b'z'

abbrev pub is_base64url : ℕ → Bool
is_base64url c = is_digit c || is_upper c || is_lower c || c == b'-' || c == b'_'

-- The pattern /^[class]{lo,hi}$/.
unfoldable pub is_run_of : (ℕ → Bool) → ℕ → ℕ → Text → Bool
is_run_of class lo hi s = leb lo (length s) && leb (length s) hi && all class s
