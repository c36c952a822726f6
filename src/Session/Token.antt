-- ===== src/Session/Token.antt =====
-- background/steam-read-session-provider.ts: the web token in memory: `offerAccessToken`,
-- `hasUsableAccessToken`, `forgetSession`, `refreshAccessToken`, `mintAccessToken` and
-- `getAccessToken`, cut at their awaits. The log is of the model: it says which tokens were accepted,
-- for which account, and which were given to a read.
pub mod Own
use csboard_extension.Prelude.{
  ℕ, zero, suc, ◌+◌, ◌*◌, ◌≡◌, Bool, true, false, not, ◌&&◌, ◌||◌, Option, none, some, List, [],
  ◌∷◌, any, leb, ltb, ◌==◌, length, if◌then◌else◌,
}
use csboard_extension.Prelude.Text.{Text, codes, ◌===◌, is_digit}
use csboard_extension.Prelude.Pattern.{is_space}
use csboard_extension.Shared.Result.{Result, ok, err, ◌>>=◌, ◌>>◌, throw_if}
use csboard_extension.Gateway.Error.{Checked, invalid}
use csboard_extension.Session.Values.{trim, trim_start, after_prefix}

abbrev pub token_memory_ttl_ms : ℕ
token_memory_ttl_ms = 70 * 60 * 1000

pub record MemoryToken : Type 0 where
  pub value : Text
  pub minted_at : ℕ

-- `pendingToken`: it waits for the page, for its text, or for its own removal.
pub data Pending : Type 0 where
  fetching reading_page : Pending
  settled : Checked Text → Pending

pub data Event : Type 0 where
  accepted : Text → (at : ℕ) → (account : Option Text) → Event
  used : Text → (now : ℕ) → Event
  handed : Text → Event

pub record State : Type 0 where
  pub memory_token : Option MemoryToken
  pub pending_token : Option Pending
  pub log : List Event

-- `replace(/&quot;/g, '')`: behind a match the search goes on, and `skip` counts what is left of it.
unfoldable pub without_entities : ℕ → Text → Text
unfolding after_prefix
without_entities skip [] = []
without_entities (suc skip) (c ∷ s) = without_entities skip s
without_entities zero (c ∷ s) =
    let matched = without_entities 5 s in
    let kept = without_entities 0 s in
    elim (after_prefix (codes "&quot;") (c ∷ s)) [ none ↦ c ∷ kept | some rest ↦ matched ]

unfoldable pub without_quotes : Text → Text
without_quotes [] = []
without_quotes (c ∷ s) = if c == b'"' then without_quotes s else c ∷ without_quotes s

unfoldable pub normalized_token : Text → Text
unfolding without_entities without_quotes trim
normalized_token token = trim (without_quotes (without_entities 0 token))

abbrev pub is_token : Text → Bool
is_token s = leb 16 (length s) && leb (length s) 4096 && not (any is_space s)

abbrev pub remember : Text → ℕ → Option Text → State → State
remember token now account s = record s {
  memory_token = some (record { value = token; minted_at = now });
  log = accepted token now account ∷ s.log;
}

-- `/name\s*=\s*"(class+)"/.exec(html)?.[1]`
unfoldable pub run_then_quote : (ℕ → Bool) → Text → Option Text
run_then_quote class [] = none
run_then_quote class (c ∷ s) =
    let rest = run_then_quote class s in
    if c == b'"'
    then some []
    else (if class c then elim rest [ none ↦ none | some value ↦ some (c ∷ value) ] else none)

abbrev nonempty : Option Text → Option Text
nonempty none = none
nonempty (some []) = none
nonempty (some (c ∷ s)) = some (c ∷ s)

abbrev quoted : (ℕ → Bool) → Option Text → Option Text
quoted class none = none
quoted class (some s) = nonempty (run_then_quote class s)

abbrev equalled : (ℕ → Bool) → Option Text → Option Text
equalled class none = none
equalled class (some s) = quoted class (after_prefix (codes "\"") (trim_start s))

abbrev attribute_here : Text → (ℕ → Bool) → Option Text → Option Text
attribute_here name class none = none
attribute_here name class (some s) = equalled class (after_prefix (codes "=") (trim_start s))

unfoldable pub attribute : Text → (ℕ → Bool) → Text → Option Text
unfolding after_prefix trim_start run_then_quote
attribute name class [] = none
attribute name class (c ∷ html) =
    let later = attribute name class html in
    elim (attribute_here name class (after_prefix name (c ∷ html))) [
      | none ↦ later
      | some value ↦ some value
    ]

abbrev pub is_other : Text → Option Text → Bool
is_other own none = false
is_other own (some id) = not (id === own)

abbrev token_in : Option Text → Checked Text
token_in none = err (invalid "steam-session-unavailable")
token_in (some raw) =
    throw_if (not (is_token (normalized_token raw))) (invalid "steam-session-unavailable")
    >> ok (normalized_token raw)

abbrev page_token : Text → Checked Text
page_token html =
    token_in (attribute (codes "data-loyalty_webapi_token") (λ c. not (c == b'"')) html)

abbrev pub page_account : Text → Option Text
page_account html = attribute (codes "g_steamID") is_digit html

-- The page's response: whether it is ok, and the origin that it came from at last.
pub record PageResponse : Type 0 where
  pub is_ok : Bool
  pub origin : Option Text

abbrev is_community : Option Text → Bool
is_community none = false
is_community (some origin) = origin === codes "https://steamcommunity.com"

abbrev pub set_pending : Option Pending → State → State
set_pending pending s = record s { pending_token = pending }

-- The answer to a request for the page, or its failure.
abbrev pub page_answered : Checked PageResponse → State → State
page_answered (err error) s = set_pending (some (settled (err error))) s
page_answered (ok response) s =
    if response.is_ok && is_community response.origin
    then set_pending (some reading_page) s
    else set_pending (some (settled (err (invalid "steam-session-unavailable")))) s

abbrev pub handed_on : Checked Text → State → State
handed_on (ok token) s = record s { log = handed token ∷ s.log }
handed_on (err error) s = s

-- `finally`, and the reads that waited go on.
unfoldable pub mint_removed : Checked Text → State → State
mint_removed outcome s = set_pending none (handed_on outcome s)

module _ (steam_id : Text) where
  unfoldable pub offer_access_token : (token token_steam_id : Text) (now : ℕ) → State → State
  unfolding normalized_token
  offer_access_token token token_steam_id now s =
      if not (token_steam_id === steam_id)
      then s
      else if not (is_token (normalized_token token))
      then s
      else remember (normalized_token token) now (some token_steam_id) s

  -- The text of the page. The account is looked for ahead of the token.
  unfoldable pub minted : Text → Checked Text
  unfolding attribute normalized_token
  minted html =
      throw_if (is_other steam_id (page_account html)) (invalid "steam-account-mismatch")
      >> page_token html

  abbrev pub keep_minted : Checked Text → Option Text → ℕ → State → State
  keep_minted (ok token) account now s =
      set_pending (some (settled (ok token))) (remember token now account s)
  keep_minted (err error) account now s = set_pending (some (settled (err error))) s

  unfoldable pub page_read : Checked Text → ℕ → State → State
  unfolding minted
  page_read (err error) now s = set_pending (some (settled (err error))) s
  page_read (ok html) now s = keep_minted (minted html) (page_account html) now s

abbrev pub is_usable : ℕ → Option MemoryToken → Bool
is_usable now none = false
is_usable now (some token) = ltb now (token.minted_at + token_memory_ttl_ms)

unfoldable pub has_usable_access_token : ℕ → State → Bool
has_usable_access_token now s = is_usable now s.memory_token

unfoldable pub forget_session : State → State
forget_session s = record s { memory_token = none }

-- A mint that is under way is joined.
abbrev pub join_or_mint : Option Pending → State → State
join_or_mint none s = set_pending (some fetching) s
join_or_mint (some pending) s = s

abbrev pub use_or_mint : Option MemoryToken → ℕ → State → State
use_or_mint none now s = join_or_mint s.pending_token s
use_or_mint (some token) now s =
    if is_usable now (some token)
    then record s { log = used token.value now ∷ s.log }
    else join_or_mint s.pending_token s

unfoldable pub get_access_token : Bool → ℕ → State → State
get_access_token true now s = join_or_mint s.pending_token s
get_access_token false now s = use_or_mint s.memory_token now s

pub record Credential : Type 0 where
  pub token : Text
  pub steam_id : Text

-- `refreshAccessToken`, behind the answer of a page that is open.
unfoldable pub refresh_answered : Text → Option Credential → ℕ → State → State
unfolding offer_access_token has_usable_access_token get_access_token
refresh_answered steam_id none now s = get_access_token true now s
refresh_answered steam_id (some credential) now s =
    let t = offer_access_token steam_id credential.token credential.steam_id now s in
    if has_usable_access_token now t then t else get_access_token true now t

abbrev pub started : State
started = record { memory_token = none; pending_token = none; log = [] }

module _ (steam_id : Text) where
  pub data Step (s : State) : State → Type 0 where
    offered :
        (token token_steam_id : Text) (now : ℕ)
        → Step s (offer_access_token steam_id token token_steam_id now s)
    forgotten : Step s (forget_session s)
    asked : (force : Bool) (now : ℕ) → Step s (get_access_token force now s)
    refreshed :
        (answer : Option Credential) (now : ℕ) → Step s (refresh_answered steam_id answer now s)
    answered :
        (response : Checked PageResponse)
        → s.pending_token ≡ some fetching
        → Step s (page_answered response s)
    read :
        (html : Checked Text) (now : ℕ)
        → s.pending_token ≡ some reading_page
        → Step s (page_read steam_id html now s)
    removed :
        (outcome : Checked Text)
        → s.pending_token ≡ some (settled outcome)
        → Step s (mint_removed outcome s)

  pub data Reaches : State → Type 0 where
    here : Reaches started
    later : {s t : State} → Reaches s → Step s t → Reaches t
