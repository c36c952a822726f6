-- ===== src/Session/Token/Own.antt =====
-- background/steam-read-session-provider.ts: whose tokens are used, and for how long.
use csboard_extension.Prelude.{
  ℕ, ◌+◌, ◌≤◌, ◌<◌, ◌≡◌, ◌⊎◌, inl, inr, refl, ap, arith, Bool, true, false, not, Option, none, some,
  List, [], ◌∷◌, any, length, if-cases, ◌==◌,
}
use csboard_extension.Prelude.Text.{Text, codes, ◌===◌, ===_iff}
use csboard_extension.Prelude.Pattern.{is_space}
use csboard_extension.Shared.Result.{
  ok, err, throw_if, throw_if-eq-ok, throw_unless-eq-ok, >>-eq-ok,
}
use csboard_extension.Gateway.Error.{Checked, invalid}
use csboard_extension.Session.Token.{
  attribute, MemoryToken, Pending, fetching, reading_page, settled, Event, accepted, used, handed,
  State, normalized_token, is_token, remember, is_other, token_in, page_token, page_account,
  PageResponse, set_pending, page_answered, mint_removed, offer_access_token, minted, keep_minted,
  page_read, is_usable, has_usable_access_token, forget_session, join_or_mint, use_or_mint,
  get_access_token, Credential, refresh_answered, Step, offered, forgotten, asked, refreshed,
  answered, read, removed, Reaches, here, later,
}

-- The token was accepted at that time.
abbrev pub WasAccepted : Text → ℕ → List Event → Type 0
WasAccepted token at [] = ⊥
WasAccepted token at (accepted t a account ∷ log) =
    ((t ≡ token) × (a ≡ at)) ⊎ WasAccepted token at log
WasAccepted token at (used t now ∷ log) = WasAccepted token at log
WasAccepted token at (handed t ∷ log) = WasAccepted token at log

abbrev pub IsToken : Text → Type 0
IsToken token = (16 ≤ length token) × (length token ≤ 4096) × (any is_space token ≡ false)

module _ (steam_id : Text) where
  -- Tokens are accepted for this account, or from a page that names none; and a token that is used
  -- was accepted less than 70 minutes before.
  abbrev pub IsOwn : List Event → Type 0
  IsOwn [] = Unit
  IsOwn (accepted token at account ∷ log) =
      ((account ≡ none) ⊎ (account ≡ some steam_id)) × IsToken token × IsOwn log
  IsOwn (used token now ∷ log) =
      ((at : ℕ) × WasAccepted token at log × (now < at + 4200000)) × IsOwn log
  IsOwn (handed token ∷ log) = ((at : ℕ) × WasAccepted token at log) × IsOwn log

  record IsSound (s : State) : Type 0 where
    kept :
        (token : MemoryToken)
        → s.memory_token ≡ some token
        → WasAccepted token.value token.minted_at s.log
    awaited :
        (token : Text)
        → s.pending_token ≡ some (settled (ok token))
        → (at : ℕ) × WasAccepted token at s.log
    own : IsOwn s.log

  is_token-IsToken : (s : Text) → is_token s ≡ true → IsToken s
  is_token-IsToken s h = (ground arith, ground arith, ground arith)

  set_pending-IsSound :
      (pending : Option Pending) (s : State)
      → IsSound s
      → ((token : Text)
          → pending ≡ some (settled (ok token))
          → (at : ℕ) × WasAccepted token at s.log)
      → IsSound (set_pending pending s)
  set_pending-IsSound pending s i h = record { kept = i.kept; awaited = h; own = i.own }

  remember-IsSound :
      (token : Text) (now : ℕ) (account : Option Text) (s : State)
      → IsSound s
      → ((account ≡ none) ⊎ (account ≡ some steam_id))
      → IsToken token
      → IsSound (remember token now account s)
  remember-IsSound token now account s i mine shaped = record {
    kept = λ t h. inl (ground arith, ground arith);
    awaited = λ t h. let (at, was) = i.awaited t h in (at, inr was);
    own = (mine, shaped, i.own);
  }

  offer-IsSound :
      (token token_steam_id : Text) (now : ℕ) (s : State)
      → IsSound s
      → IsSound (offer_access_token steam_id token token_steam_id now s)
  unfolding offer_access_token
  offer-IsSound token token_steam_id now s i =
      if-cases IsSound (not (token_steam_id === steam_id)) (λ _. i)
        (λ same.
          if-cases IsSound (not (is_token (normalized_token token))) (λ _. i)
            (λ shaped.
              remember-IsSound (normalized_token token) now (some token_steam_id) s i
                (inr (ap some ((===_iff token_steam_id steam_id).0 (ground arith))))
                (is_token-IsToken (normalized_token token) (ground arith))))

  join_or_mint-IsSound :
      (pending : Option Pending) (s : State) → IsSound s → IsSound (join_or_mint pending s)
  join_or_mint-IsSound none s i = set_pending-IsSound (some fetching) s i (λ token h. cc)
  join_or_mint-IsSound (some pending) s i = i

  use_or_mint-IsSound :
      (memory : Option MemoryToken) (now : ℕ) (s : State)
      → IsSound s
      → s.memory_token ≡ memory
      → IsSound (use_or_mint memory now s)
  use_or_mint-IsSound none now s i at = join_or_mint-IsSound s.pending_token s i
  use_or_mint-IsSound (some token) now s i at =
      if-cases IsSound (is_usable now (some token))
        (λ fresh. record {
          kept = i.kept;
          awaited = i.awaited;
          own = ((token.minted_at, i.kept token at, ground arith), i.own);
        })
        (λ _. join_or_mint-IsSound s.pending_token s i)

  get_access_token-IsSound :
      (force : Bool) (now : ℕ) (s : State) → IsSound s → IsSound (get_access_token force now s)
  unfolding get_access_token
  get_access_token-IsSound true now s i = join_or_mint-IsSound s.pending_token s i
  get_access_token-IsSound false now s i = use_or_mint-IsSound s.memory_token now s i refl

  refresh_answered-IsSound :
      (answer : Option Credential) (now : ℕ) (s : State)
      → IsSound s
      → IsSound (refresh_answered steam_id answer now s)
  unfolding refresh_answered
  refresh_answered-IsSound none now s i = get_access_token-IsSound true now s i
  refresh_answered-IsSound (some credential) now s i =
      let t = offer_access_token steam_id credential.token credential.steam_id now s in
      let sound : IsSound t = offer-IsSound credential.token credential.steam_id now s i in
      if-cases IsSound (has_usable_access_token now t) (λ _. sound)
        (λ _. get_access_token-IsSound true now t sound)

  token_in-IsToken : (raw : Option Text) (token : Text) → token_in raw ≡ ok token → IsToken token
  token_in-IsToken none token h = cc
  token_in-IsToken (some raw) token h =
      let (passed, made) =
        >>-eq-ok
          (throw_if (not (is_token (normalized_token raw))) (invalid "steam-session-unavailable")) _
          h in
      let same : normalized_token raw ≡ token = cc in
      rw⁻¹ same (
        is_token-IsToken (normalized_token raw)
          (throw_unless-eq-ok (is_token (normalized_token raw)) _ passed))

  page_token-IsToken : (html token : Text) → page_token html ≡ ok token → IsToken token
  page_token-IsToken html token h =
      token_in-IsToken (attribute (codes "data-loyalty_webapi_token") (λ c. not (c == b'"')) html)
        token h

  is_other-own :
      (account : Option Text)
      → is_other steam_id account ≡ false
      → (account ≡ none) ⊎ (account ≡ some steam_id)
  is_other-own none h = inl refl
  is_other-own (some id) h = inr (ap some ((===_iff id steam_id).0 (ground arith)))

  keep_minted-IsSound :
      (outcome : Checked Text) (html : Text) (now : ℕ) (s : State)
      → minted steam_id html ≡ outcome
      → IsSound s
      → IsSound (keep_minted steam_id outcome (page_account html) now s)
  unfolding minted
  keep_minted-IsSound (err error) html now s e i =
      set_pending-IsSound (some (settled (err error))) s i (λ token h. cc)
  keep_minted-IsSound (ok token) html now s e i =
      let (passed, made) =
        >>-eq-ok
          (throw_if (is_other steam_id (page_account html)) (invalid "steam-account-mismatch")) _
          e in
      set_pending-IsSound (some (settled (ok token))) (remember token now (page_account html) s)
        (remember-IsSound token now (page_account html) s i
          (is_other-own (page_account html) (throw_if-eq-ok _ _ passed))
          (page_token-IsToken html token made))
        (λ t h. (now, inl (ground arith, refl)))

  page_answered-IsSound :
      (response : Checked PageResponse) (s : State) → IsSound s → IsSound (page_answered response s)
  page_answered-IsSound (err error) s i =
      set_pending-IsSound (some (settled (err error))) s i (λ token h. cc)
  page_answered-IsSound (ok response) s i =
      if-cases IsSound _ (λ _. set_pending-IsSound (some reading_page) s i (λ token h. cc))
        (λ _.
          set_pending-IsSound (some (settled (err (invalid "steam-session-unavailable")))) s i
            (λ token h. cc))

  mint_removed-IsSound :
      (outcome : Checked Text) (s : State)
      → IsSound s
      → s.pending_token ≡ some (settled outcome)
      → IsSound (mint_removed outcome s)
  unfolding mint_removed
  mint_removed-IsSound (err error) s i at = set_pending-IsSound none s i (λ token h. cc)
  mint_removed-IsSound (ok token) s i at = record {
    kept = i.kept;
    awaited = λ t h. cc;
    own = (i.awaited token at, i.own);
  }

  Step-IsSound : {s t : State} → Step steam_id s t → IsSound s → IsSound t
  unfolding forget_session page_read
  Step-IsSound {s} (offered token id now) i = offer-IsSound token id now s i
  Step-IsSound {s} forgotten i = record { kept = λ t h. cc; awaited = i.awaited; own = i.own }
  Step-IsSound {s} (asked force now) i = get_access_token-IsSound force now s i
  Step-IsSound {s} (refreshed answer now) i = refresh_answered-IsSound answer now s i
  Step-IsSound {s} (answered response at) i = page_answered-IsSound response s i
  Step-IsSound {s} (read (err error) now at) i =
      set_pending-IsSound (some (settled (err error))) s i (λ token h. cc)
  Step-IsSound {s} (read (ok html) now at) i =
      keep_minted-IsSound (minted steam_id html) html now s refl i
  Step-IsSound {s} (removed outcome at) i = mint_removed-IsSound outcome s i at

  Reaches-IsSound : {s : State} → Reaches steam_id s → IsSound s
  Reaches-IsSound here = record { kept = λ t h. cc; awaited = λ t h. cc; own = tt }
  Reaches-IsSound (later before step) = Step-IsSound step (Reaches-IsSound before)

  -- In any run of offers, mints, refreshes and reads: each token is accepted for the provider's
  -- account or from a page that names no account, has 16 to 4,096 units and no space; a token that is
  -- used from memory was accepted less than 70 minutes before; and a token that a mint hands on was
  -- accepted.
  pub Reaches-IsOwn : (s : State) → Reaches steam_id s → IsOwn s.log
  Reaches-IsOwn s reached = (Reaches-IsSound reached).own
