-- ===== src/Client/Config.antt =====
-- background/gateway-client.ts: `validateGatewayOrigin` and `validateRoot`. The URL parser is the
-- browser's, and a parameter.
use csboard_extension.Prelude.{
  ◌≡◌, refl, Bool, true, false, not, ◌&&◌, ◌||◌, Option, none, some, List, [], ◌∷◌, arith, ◌==◌,
}
use csboard_extension.Prelude.Text.{Text, codes, ◌===◌, ===_iff, includes, is_base64url, is_run_of}
use csboard_extension.Shared.Result.{
  Result, ok, err, ◌>>=◌, ◌>>◌, throw_if, throw_if-eq-ok, >>-eq-ok, >>=-eq-ok,
}

pub record ParsedUrl : Type 0 where
  pub protocol : Text
  pub origin : Text

-- `new URL` throws, or the error UNCONFIGURED.
pub data ConfigError : Type 0 where
  invalid_url unconfigured : ConfigError

pub record RootJwk : Type 0 where
  pub kty : Text
  pub crv : Text
  pub x : Option Text
  pub y : Option Text
  pub d : Option Text

pub record PinnedRoot : Type 0 where
  pub key_id : Text
  pub public_jwk : RootJwk

abbrev is_coordinate : Option Text → Bool
is_coordinate none = false
is_coordinate (some s) = is_run_of is_base64url 43 43 s

abbrev is_absent : Option Text → Bool
is_absent none = true
is_absent (some s) = false

abbrev pub is_root : PinnedRoot → Bool
is_root root =
    is_run_of (λ c. is_base64url c || c == b'.') 1 128 root.key_id
    && root.public_jwk.kty === codes "EC"
    && root.public_jwk.crv === codes "P-256"
    && is_coordinate root.public_jwk.x
    && is_coordinate root.public_jwk.y
    && is_absent root.public_jwk.d

unfoldable pub validate_root : Option PinnedRoot → Result PinnedRoot ConfigError
validate_root none = err unconfigured
validate_root (some root) = throw_if (not (is_root root)) unconfigured >> ok root

abbrev pub is_https : ParsedUrl → Text → Bool
is_https url text = url.protocol === codes "https:" && url.origin === text

-- An entry of the configuration, and the configured origin among the allowed ones.
abbrev pub allowed_entry : Text → Option ParsedUrl → Result Text ConfigError
allowed_entry entry none = err invalid_url
allowed_entry entry (some url) = throw_if (not (is_https url entry)) unconfigured >> ok url.origin

abbrev pub own_origin : Text → List Text → Option ParsedUrl → Result Text ConfigError
own_origin gateway_origin allowed none = err unconfigured
own_origin gateway_origin allowed (some url) =
    throw_if (not (is_https url gateway_origin && includes allowed url.origin)) unconfigured
    >> ok url.origin

https-same :
    (url : ParsedUrl) (text : Text)
    → is_https url text ≡ true
    → (url.origin ≡ text) × (url.protocol ≡ codes "https:")
https-same url text h = (
  (===_iff url.origin text).0 (ground arith),
  (===_iff url.protocol (codes "https:")).0 (ground arith),
)

allowed_entry-same :
    (entry origin : Text) (parsed : Option ParsedUrl)
    → allowed_entry entry parsed ≡ ok origin
    → origin ≡ entry
allowed_entry-same entry origin none h = cc
allowed_entry-same entry origin (some url) h =
    let (passed, made) = >>-eq-ok (throw_if (not (is_https url entry)) unconfigured) _ h in
    let fine = throw_if-eq-ok _ _ passed in
    let same = (https-same url entry (ground arith)).0 in ground arith

module _ (parse_url : Text → Option ParsedUrl) where
  unfoldable pub allowed_origins : List Text → Result (List Text) ConfigError
  allowed_origins [] = ok []
  allowed_origins (entry ∷ entries) =
      allowed_entry entry (parse_url entry)
      >>= (λ origin. allowed_origins entries >>= (λ origins. ok (origin ∷ origins)))

  unfoldable pub validate_gateway_origin : Text → List Text → Result Text ConfigError
  validate_gateway_origin gateway_origin entries =
      allowed_origins entries
      >>= (λ allowed. own_origin gateway_origin allowed (parse_url gateway_origin))

  -- The configured text, which is the origin of an https URL and in the list.
  pub record IsOrigin (gateway_origin : Text) (entries : List Text) (origin : Text) : Type 0 where
    pub configured : origin ≡ gateway_origin
    pub listed : includes entries origin ≡ true
    pub url : (u : ParsedUrl) × (parse_url gateway_origin ≡ some u) × (u.protocol ≡ codes "https:")

  allowed_origins-same :
      (entries origins : List Text) → allowed_origins entries ≡ ok origins → origins ≡ entries
  unfolding allowed_origins
  allowed_origins-same [] origins h = ground arith
  allowed_origins-same (entry ∷ entries) origins h =
      let (origin, first, later) = >>=-eq-ok (allowed_entry entry (parse_url entry)) _ h in
      let (rest, others, made) = >>=-eq-ok (allowed_origins entries) _ later in
      let same = allowed_entry-same entry origin (parse_url entry) first in
      let same_rest = allowed_origins-same entries rest others in ground arith

  own_origin-IsOrigin :
      (gateway_origin : Text) (entries : List Text) (origin : Text) (parsed : Option ParsedUrl)
      → parse_url gateway_origin ≡ parsed
      → own_origin gateway_origin entries parsed ≡ ok origin
      → IsOrigin gateway_origin entries origin
  own_origin-IsOrigin gateway_origin entries origin none e h = cc
  own_origin-IsOrigin gateway_origin entries origin (some url) e h =
      let (passed, made) =
        >>-eq-ok
          (throw_if (not (is_https url gateway_origin && includes entries url.origin)) unconfigured)
          _ h in
      let fine = throw_if-eq-ok _ _ passed in
      let (same, https) = https-same url gateway_origin (ground arith) in
      record { configured = ground arith; listed = ground arith; url = (url, e, https) }

  -- The origin that the client uses is the configured text, it is in the configured list, and it is
  -- that of an https URL.
  pub validate_gateway_origin-IsOrigin :
      (gateway_origin : Text) (entries : List Text) (origin : Text)
      → validate_gateway_origin gateway_origin entries ≡ ok origin
      → IsOrigin gateway_origin entries origin
  unfolding validate_gateway_origin
  validate_gateway_origin-IsOrigin gateway_origin entries origin h =
      let (allowed, listed, own) = >>=-eq-ok (allowed_origins entries) _ h in
      let same : allowed ≡ entries = allowed_origins-same entries allowed listed in
      own_origin-IsOrigin gateway_origin entries origin (parse_url gateway_origin) refl
        (rw⁻¹ same own)
