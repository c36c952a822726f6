-- ===== src/Client/Discovery/Sound.antt =====
-- background/gateway-client.ts: what holds of a discovery document that is not rejected.
use csboard_extension.Prelude.{
  ◌≤◌, ◌≡◌, refl, Bool, true, false, Option, none, some, List, [], ◌∷◌, map, ap, arith, length,
  keep,
}
use csboard_extension.Prelude.Int.{ℤ, pos, ◌+ℤ◌, ◌-ℤ◌, ◌≤ℤ◌, ◌<ℤ◌}
use csboard_extension.Prelude.Text.{Text, codes}
use csboard_extension.Gateway.Payload.{Fields}
use csboard_extension.Client.Body.{lookup}
use csboard_extension.Portfolio.Checks.Sound.{IsDistinct}
use csboard_extension.Client.Discovery.{
  max_gateway_clock_skew_seconds, max_discovery_lifetime_seconds, DiscoveryKey, DiscoveryDocument,
  ◌>>=◌, guard, are_distinct, is_active, is_current, sole, are_keys, chosen, choose, has_header,
  within_times, safe_integer_of, array_of, validate_keys, validate_discovery_document,
}

-- A document that is not from the future, not expired and short-lived, with at most three keys of
-- different ids, of which the chosen one is the only active one.
pub record IsUsable (now : ℤ) (document : DiscoveryDocument) (key : DiscoveryKey) : Type 0 where
  pub issued : document.issued_at ≤ℤ (now +ℤ pos max_gateway_clock_skew_seconds)
  pub alive : now <ℤ document.expires_at
  pub short : (document.expires_at -ℤ document.issued_at) ≤ℤ pos max_discovery_lifetime_seconds
  pub few : length document.keys ≤ 3
  pub distinct : IsDistinct (map (λ (k : DiscoveryKey). k.key_id) document.keys)
  pub only : keep is_active document.keys ≡ key ∷ []

>>=-eq-some {ℓ κ} :
    {A : Type ℓ} {B : Type κ} (o : Option A) (f : A → Option B) (b : B)
    → (o >>= f) ≡ some b
    → (a : A) × (o ≡ some a) × (f a ≡ some b)
>>=-eq-some none f b h = cc
>>=-eq-some (some a) f b h = (a, refl, h)

guard_passed : (test : Bool) → guard test ≡ some tt → test ≡ true
guard_passed true h = refl
guard_passed false h = cc

are_distinct-IsDistinct : (ids : List Text) → are_distinct ids ≡ true → IsDistinct ids
unfolding are_distinct
are_distinct-IsDistinct [] h = tt
are_distinct-IsDistinct (id ∷ ids) h = (ground arith, are_distinct-IsDistinct ids (ground arith))

sole-eq-some :
    (keys : List DiscoveryKey) (key : DiscoveryKey) → sole keys ≡ some key → keys ≡ key ∷ []
sole-eq-some [] key h = cc
sole-eq-some (k ∷ []) key h = ground arith
sole-eq-some (k ∷ other ∷ keys) key h = cc

chosen-IsUsable :
    (now issued expires : ℤ) (keys : List DiscoveryKey) (document : DiscoveryDocument)
    (key : DiscoveryKey)
    → is_current now issued expires ≡ true
    → choose issued expires keys ≡ some (document, key)
    → IsUsable now document key
chosen-IsUsable now issued expires keys document key current h =
    let (_, passed, later) = >>=-eq-some (guard (are_keys keys)) _ _ h in
    let (only, sole_key, made) =
      >>=-eq-some (sole (keep is_active keys)) (chosen issued expires keys) _ later in
    let fine = guard_passed (are_keys keys) passed in
    let same : (record { issued_at = issued; expires_at = expires; keys = keys }, only)
        ≡ (document, key) =
      ground arith in
    let document_same = ap (λ (p : DiscoveryDocument × DiscoveryKey). p.0) same in
    let key_same = ap (λ (p : DiscoveryDocument × DiscoveryKey). p.1) same in
    rw⁻¹ (document_same, key_same)
      (record {
        issued = ground arith;
        alive = ground arith;
        short = ground arith;
        few = ground arith;
        distinct = are_distinct-IsDistinct _ (ground arith);
        only = sole-eq-some (keep is_active keys) only sole_key;
      })

-- A document that is accepted was issued at most five minutes ahead, has not expired, lives a day at
-- most, and has at most three keys, of different ids, of which exactly the chosen one is active.
pub validate_discovery_document-IsUsable :
    (value : Fields) (now : ℤ) (document : DiscoveryDocument) (key : DiscoveryKey)
    → validate_discovery_document value now ≡ some (document, key)
    → IsUsable now document key
unfolding validate_discovery_document
validate_discovery_document-IsUsable value now document key h =
    let (_, _, h_1) = >>=-eq-some (guard (has_header value)) _ _ h in
    let (issued, _, h_2) =
      >>=-eq-some (safe_integer_of (lookup (codes "issuedAt") value)) _ _ h_1 in
    let (expires, _, h_3) =
      >>=-eq-some (safe_integer_of (lookup (codes "expiresAt") value))
        (within_times value now issued) _ h_2 in
    let (_, current, h_4) = >>=-eq-some (guard (is_current now issued expires)) _ _ h_3 in
    let (items, _, h_5) = >>=-eq-some (array_of (lookup (codes "keys") value)) _ _ h_4 in
    let (keys, _, h_6) = >>=-eq-some (validate_keys items) (choose issued expires) _ h_5 in
    chosen-IsUsable now issued expires keys document key
      (guard_passed (is_current now issued expires) current) h_6
