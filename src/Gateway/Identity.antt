-- ===== src/Gateway/Identity.antt =====
-- shared/gateway-dto.ts: Steam ids and pairing codes.
use csboard_extension.Prelude.{ℕ, ◌+◌, ◌*◌, ◌-◌, Bool, ◌&&◌, ◌||◌, [], ◌∷◌, leb, ◌==◌}
use csboard_extension.Prelude.Text.{Text, is_digit, is_run_of}
use csboard_extension.Prelude.Pattern.{Regex, start, finish, unit, seq, test}
use csboard_extension.Gateway.Error.{Checked, invalid_at_path, require}

abbrev decimal_from : ℕ → Text → ℕ
decimal_from n [] = n
decimal_from n (c ∷ s) = decimal_from (n * 10 + (c - b'0')) s

-- `BigInt(text)` on a text of decimal digits.
unfoldable pub decimal : Text → ℕ
decimal s = decimal_from 0 s

abbrev pub min_steam_id_64 : ℕ
min_steam_id_64 = 76_561_197_960_265_728

abbrev pub max_steam_id_64 : ℕ
max_steam_id_64 = 76_561_202_255_233_023

unfoldable pub is_steam_id_64 : Text → Bool
is_steam_id_64 value =
    is_run_of is_digit 17 17 value
    && leb min_steam_id_64 (decimal value)
    && leb (decimal value) max_steam_id_64

unfoldable pub assert_steam_id_64 : Text → Checked (Unit {0})
unfolding is_steam_id_64
assert_steam_id_64 value = require (is_steam_id_64 value) invalid_at_path

abbrev exactly : ℕ → Regex
exactly c = unit (λ d. d == c)

-- [2-9A-HJ-NP-Z]
abbrev code_unit : Regex
code_unit = unit λ c.
    (leb b'2' c && leb c b'9')
    || (leb b'A' c && leb c b'H')
    || (leb b'J' c && leb c b'N')
    || (leb b'P' c && leb c b'Z')

abbrev code_group : Regex
code_group = seq (exactly b'-') (seq code_unit (seq code_unit (seq code_unit code_unit)))

abbrev pairing_code_pattern : Regex
pairing_code_pattern = seq start (
    seq (exactly b'C') (
      seq (exactly b'S') (
        seq (exactly b'F')
          (seq code_group (seq code_group (seq code_group (seq code_group finish)))))))

unfoldable pub assert_pairing_code : Text → Checked (Unit {0})
assert_pairing_code value = require (test pairing_code_pattern value) invalid_at_path
