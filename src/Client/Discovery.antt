-- ===== src/Client/Discovery.antt =====
-- background/gateway-client.ts: `validateDiscoveryDocument`, the choice of the gateway's key. Every
-- refusal is the one error DISCOVERY_REJECTED, which is `none` here.
pub mod Sound
use csboard_extension.Prelude.{
  ℕ, suc, ◌+◌, ◌*◌, ◌≤◌, ◌≡◌, refl, Bool, true, false, not, ◌&&◌, ◌||◌, Option, none, some, List,
  [], ◌∷◌, map, arith, length, keep, leb, ◌==◌, ==_iff, inl, inr, Bool-cases, Option-cases,
}
use csboard_extension.Prelude.Int.{ℤ, pos, ◌+ℤ◌, ◌-ℤ◌, ◌≤ℤ◌, ◌<ℤ◌, leb_ℤ, ltb_ℤ, is_safe_integer}
use csboard_extension.Prelude.Text.{Text, codes, ◌===◌, includes, is_base64url, is_run_of}
use csboard_extension.Gateway.Payload.{Js, num, int, str, arr, obj, Items, nil, cons, Fields}
use csboard_extension.Gateway.Message.{hpke_suite}
use csboard_extension.Client.Body.{lookup, has_exact_keys, is_text, is_integer}

abbrev pub max_discovery_lifetime_seconds : ℕ
max_discovery_lifetime_seconds = 24 * 60 * 60

abbrev pub max_gateway_clock_skew_seconds : ℕ
max_gateway_clock_skew_seconds = 5 * 60

pub data KeyStatus : Type 0 where
  active retiring : KeyStatus

-- `kty` and `crv` of the public key are fixed.
pub record DiscoveryKey : Type 0 where
  pub key_id : Text
  pub status : KeyStatus
  pub x : Text

pub record DiscoveryDocument : Type 0 where
  pub issued_at : ℤ
  pub expires_at : ℤ
  pub keys : List DiscoveryKey

abbrev pub is_key_id : Text → Bool
is_key_id s = is_run_of (λ c. is_base64url c || c == b'.') 1 128 s

infixl 5 ◌>>=◌
abbrev pub ◌>>=◌ {ℓ κ} : {A : Type ℓ} {B : Type κ} → Option A → (A → Option B) → Option B
none >>= f = none
some a >>= f = f a

abbrev pub when {ℓ} : {A : Type ℓ} → Bool → Option A → Option A
when true o = o
when false o = none

abbrev pub guard : Bool → Option (Unit {0})
guard true = some tt
guard false = none

-- The text of an entry that matches.
abbrev pub text_where : (Text → Bool) → Js → Option Text
text_where p (str s) = when (p s) (some s)
text_where p _ = none

unfoldable pub validate_recipient_jwk : Js → Option Text
validate_recipient_jwk (obj jwk) =
    when
      (has_exact_keys jwk (codes "kty" ∷ codes "crv" ∷ codes "x" ∷ [])
        && is_text (codes "OKP") (lookup (codes "kty") jwk)
        && is_text (codes "X25519") (lookup (codes "crv") jwk))
      (text_where (is_run_of is_base64url 43 43) (lookup (codes "x") jwk))
validate_recipient_jwk _ = none

abbrev pub status_of : Js → Option KeyStatus
status_of (str s) = elim (s === codes "active") [
  | true ↦ some active
  | false ↦ when (s === codes "retiring") (some retiring)
]
status_of _ = none

unfoldable pub validate_key : Js → Option DiscoveryKey
validate_key (obj key) =
    when (has_exact_keys key (codes "keyId" ∷ codes "status" ∷ codes "publicJwk" ∷ [])) (do
      key_id ← text_where is_key_id (lookup (codes "keyId") key)
      status ← status_of (lookup (codes "status") key)
      x ← validate_recipient_jwk (lookup (codes "publicJwk") key)
      some (record { key_id = key_id; status = status; x = x }))
validate_key _ = none

unfoldable pub validate_keys : Items → Option (List DiscoveryKey)
validate_keys nil = some []
validate_keys (cons entry rest) = do
  key ← validate_key entry
  keys ← validate_keys rest
  some (key ∷ keys)

unfoldable pub safe_integer_of : Js → Option ℤ
safe_integer_of (num (int n)) = when (is_safe_integer n) (some n)
safe_integer_of _ = none

abbrev pub array_of : Js → Option Items
array_of (arr items) = some items
array_of _ = none

-- `new Set(ids).size === ids.length`
unfoldable pub are_distinct : List Text → Bool
are_distinct [] = true
are_distinct (id ∷ ids) = not (includes ids id) && are_distinct ids

abbrev pub is_active : DiscoveryKey → Bool
is_active key = elim (key.status) [ active ↦ true | retiring ↦ false ]

abbrev pub is_current : ℤ → ℤ → ℤ → Bool
is_current now issued_at expires_at =
    not (ltb_ℤ (now +ℤ pos max_gateway_clock_skew_seconds) issued_at)
    && not (leb_ℤ expires_at now)
    && not (ltb_ℤ (pos max_discovery_lifetime_seconds) (expires_at -ℤ issued_at))

abbrev pub sole : List DiscoveryKey → Option DiscoveryKey
sole [] = none
sole (key ∷ []) = some key
sole (key ∷ other ∷ keys) = none

abbrev pub has_header : Fields → Bool
has_header value =
    has_exact_keys value
      (codes "version" ∷ codes "suite" ∷ codes "issuedAt" ∷ codes "expiresAt" ∷ codes "keys" ∷ [])
    && is_integer (pos 1) (lookup (codes "version") value)
    && is_text hpke_suite (lookup (codes "suite") value)

abbrev pub are_keys : List DiscoveryKey → Bool
are_keys keys =
    leb 1 (length keys)
    && leb (length keys) 3
    && are_distinct (map (λ (key : DiscoveryKey). key.key_id) keys)

abbrev pub chosen :
    ℤ → ℤ → List DiscoveryKey → DiscoveryKey → Option (DiscoveryDocument × DiscoveryKey)
chosen issued_at expires_at keys key =
    some (record { issued_at = issued_at; expires_at = expires_at; keys = keys }, key)

abbrev pub choose : ℤ → ℤ → List DiscoveryKey → Option (DiscoveryDocument × DiscoveryKey)
choose issued_at expires_at keys =
    guard (are_keys keys) >>= (λ _. sole (keep is_active keys) >>= chosen issued_at expires_at keys)

abbrev pub within_times : Fields → ℤ → ℤ → ℤ → Option (DiscoveryDocument × DiscoveryKey)
within_times value now issued_at expires_at = guard (is_current now issued_at expires_at) >>= (λ _.
    array_of (lookup (codes "keys") value)
    >>= (λ items. validate_keys items >>= choose issued_at expires_at))

unfoldable pub validate_discovery_document : Fields → ℤ → Option (DiscoveryDocument × DiscoveryKey)
validate_discovery_document value now = guard (has_header value) >>= (λ _.
    safe_integer_of (lookup (codes "issuedAt") value) >>= (λ issued_at.
      safe_integer_of (lookup (codes "expiresAt") value) >>= within_times value now issued_at))
