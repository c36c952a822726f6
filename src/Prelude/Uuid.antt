-- ===== src/Prelude/Uuid.antt =====
-- The patterns of UUIDs that the program tests texts with.
use Prim.Native.Nat.{ℕ, zero, suc}
use mathlib.Core.Bool.{Bool, true, false, ◌&&◌, ◌||◌}
use mathlib.Core.List.{List, [], ◌∷◌, ◌++◌}
use csboard_extension.Prelude.Tests.{leb, ◌==◌}
use csboard_extension.Prelude.Text.{Text, is_digit}

abbrev is_hex : ℕ → Bool
is_hex c = is_digit c || (leb b'a' c && leb c b'f') || (leb b'A' c && leb c b'F')

abbrev times : ℕ → (ℕ → Bool) → List (ℕ → Bool)
times zero class = []
times (suc n) class = class ∷ times n class

-- One class for each code unit.
unfoldable pub matches : List (ℕ → Bool) → Text → Bool
matches [] [] = true
matches [] (c ∷ s) = false
matches (class ∷ classes) [] = false
matches (class ∷ classes) (c ∷ s) = class c && matches classes s

-- The groups of a UUID, whose third starts with the version, under the flag i.
abbrev pub uuid_classes : (ℕ → Bool) → List (ℕ → Bool)
uuid_classes is_version =
    let dash : ℕ → Bool = λ c. c == b'-' in
    let variant : ℕ → Bool =
      λ c. c == b'8' || c == b'9' || c == b'a' || c == b'b' || c == b'A' || c == b'B' in
    times 8 is_hex
    ++ (dash ∷ times 4 is_hex)
    ++ (dash ∷ is_version ∷ times 3 is_hex)
    ++ (dash ∷ variant ∷ times 3 is_hex)
    ++ (dash ∷ times 12 is_hex)
