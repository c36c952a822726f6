-- ===== src/Market/Orders.antt =====
-- shared/market-orders.ts: the classes of a read's status, the cooldown after a refusal, the amounts
-- of the order histogram, and the cache of order books.
use csboard_extension.Prelude.{
  ℕ, ◌+◌, ◌-◌, ◌*◌, ◌/◌, ◌≤◌, ◌<◌, ◌≡◌, ◌↔◌, Bool, true, ◌&&◌, ◌||◌, Option, none, some, List, [],
  ◌∷◌, arith, all, leb, ltb, ◌==◌, if◌then◌else◌, length,
}
use csboard_extension.Prelude.Int.{max_safe_integer}
use csboard_extension.Prelude.Text.{Text, ◌===◌, is_digit}
use csboard_extension.Shared.Error.{ErrorCode, auth_expired, rate_limited, network_error, api_error}
use csboard_extension.Gateway.Identity.{decimal}
use csboard_extension.Market.Targets.{OrderBook}

abbrev pub order_book_ttl_ms : ℕ
order_book_ttl_ms = 3 * 60 * 1000

abbrev pub rate_limit_cooldown_ms : ℕ
rate_limit_cooldown_ms = 90 * 1000

unfoldable pub classify_market_read_http_status : ℕ → Option ErrorCode
classify_market_read_http_status status =
    if status == 401 || status == 403
    then some auth_expired
    else if status == 429
    then some rate_limited
    else if leb 500 status
    then some network_error
    else if leb 400 status
    then some api_error
    else none

-- The clock's reading is an argument.
unfoldable pub is_rate_limited : (cooldown_until now : ℕ) → Bool
is_rate_limited cooldown_until now = ltb now cooldown_until

-- Rounded up to whole seconds.
unfoldable pub rate_limit_seconds_left : (cooldown_until now : ℕ) → ℕ
rate_limit_seconds_left cooldown_until now = (cooldown_until - now + 999) / 1000

unfoldable pub enter_cooldown : ℕ → ℕ
enter_cooldown now = now + rate_limit_cooldown_ms

-- An amount of the histogram: absent or null, a text, or a whole number.
pub data RawUnits : Type 0 where
  absent : RawUnits
  text : Text → RawUnits
  number : ℕ → RawUnits

abbrev pub positive_safe : ℕ → Option ℕ
positive_safe n = if leb n max_safe_integer && ltb 0 n then some n else none

-- A text of digits beyond the safe integers becomes a number beyond them.
unfoldable pub parse_minor_units : RawUnits → Option ℕ
parse_minor_units absent = none
parse_minor_units (text s) =
    if leb 1 (length s) && all is_digit s then positive_safe (decimal s) else none
parse_minor_units (number n) = positive_safe n

-- `bookCache`, with the latest entry in front.
unfoldable pub cached_book : List (Text × OrderBook) → Text → Option OrderBook
cached_book [] name = none
cached_book ((key, book) ∷ books) name = if key === name then some book else cached_book books name

abbrev pub set_book : Text → OrderBook → List (Text × OrderBook) → List (Text × OrderBook)
set_book name book books = (name, book) ∷ books

abbrev pub fresh_book : ℕ → Option OrderBook → Option OrderBook
fresh_book now none = none
fresh_book now (some hit) = if ltb order_book_ttl_ms (now - hit.fetched_at) then none else some hit

unfoldable pub get_cached_order_book : List (Text × OrderBook) → Text → ℕ → Option OrderBook
get_cached_order_book books name now = fresh_book now (cached_book books name)

-- The seconds shown are none exactly when the cooldown is over, and a cooldown lasts 90 seconds.
pub rate_limit_seconds_left_iff :
    (start now : ℕ)
    → ((is_rate_limited (enter_cooldown start) now ≡ true)
        ↔ (1 ≤ rate_limit_seconds_left (enter_cooldown start) now))
      × ((is_rate_limited (enter_cooldown start) now ≡ true) ↔ (now < start + 90000))
unfolding is_rate_limited rate_limit_seconds_left enter_cooldown
rate_limit_seconds_left_iff start now = (ground arith, ground arith)
