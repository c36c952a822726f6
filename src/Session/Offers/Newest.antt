-- ===== src/Session/Offers/Newest.antt =====
-- background/steam-read-session-provider.ts: which offers `readTradeOffers` gives.
use mathlib.Core.List.{Perm}
use csboard_extension.Prelude.{
  ℕ, zero, suc, ◌+◌, ◌≤◌, ◌<◌, ◌≡◌, ◌↔◌, refl, sym, ◌∙◌, ap, arith, ==_iff, All-map, Bool, true,
  false, Option, inl, inr, List, [], ◌∷◌, ◌++◌, length, length-append, All, All-append, ltb→lt,
  lt→ltb, ◌==◌, if◌then◌else◌,
}
use csboard_extension.Prelude.Int.{ℤ, pos, ◌≤ℤ◌, ◌<ℤ◌}
use csboard_extension.Prelude.Text.{Text, codes}
use csboard_extension.Shared.Result.{ok, err, >>=-eq-ok}
use csboard_extension.Gateway.Error.{Checked}
use csboard_extension.Gateway.Payload.{Js, Fields}
use csboard_extension.Client.Body.{lookup}
use csboard_extension.Portfolio.Records.{Direction, sent, received, Offer}
use csboard_extension.Portfolio.Json.{direction_text}
use csboard_extension.Portfolio.Order.{sort, is_lt, compare_ℤ}
use csboard_extension.Portfolio.Order.Lexical.{
  Then, first_key, compare_ℤ-Says, IsPairwise, IsPairwise-of_ascending,
}
use csboard_extension.Portfolio.Order.Sorting.{
  IsAscending, sort-perm, sort-IsAscending, Flips, compare-Flips, then_by-Flips, compare_text-Flips,
  compare_ℤ-Flips, asymmetric_of_Flips,
}
use csboard_extension.Portfolio.Collector.Trades.{OffersRead}
use csboard_extension.Session.Values.{
  Language, as_record, as_array, optional_integer, optional_string, required_digits,
}
use csboard_extension.Session.Items.{DescriptionMap, ResolvedUrl, build_description_map}
use csboard_extension.Session.Offers.{
  compare_digit_strings_descending, newest_offer_first, take, state_of, positive_of, completed_id,
  items_in, accepted_offer, kept, normalize_offers, all_accepted_offers, newest_offers,
  read_trade_offers,
}

newest-Flips : (x y : Offer) → Flips (newest_offer_first x y) (newest_offer_first y x)
unfolding newest_offer_first compare_digit_strings_descending
newest-Flips x y = then_by-Flips _ _ _ _ (compare_ℤ-Flips y.created_at x.created_at) (
    then_by-Flips _ _ _ _
      (then_by-Flips _ _ _ _ (compare-Flips (length y.offer_id) (length x.offer_id))
        (compare_text-Flips y.offer_id x.offer_id))
      (compare_text-Flips (direction_text x.direction) (direction_text y.direction)))

-- The first offer was made no earlier than the second.
abbrev pub IsNoOlder : Offer → Offer → Type 0
IsNoOlder x y = y.created_at ≤ℤ x.created_at

newest_offer_first-IsNoOlder :
    (x y : Offer) → is_lt (newest_offer_first y x) ≡ false → IsNoOlder x y
unfolding newest_offer_first
newest_offer_first-IsNoOlder x y h = no_older (
    first_key (compare_ℤ x.created_at y.created_at) _ (compare_ℤ-Says y.created_at x.created_at)
      (λ e. tt) h)
  where
    no_older :
        Then (y.created_at <ℤ x.created_at) (y.created_at ≡ x.created_at) (Unit {0}) → IsNoOlder x y
    no_older (inl older) = omega (arith, older)
    no_older (inr (same, _)) = rw same (omega arith)

length-take {ℓ} : {A : Type ℓ} (n : ℕ) (xs : List A) → length (take n xs) ≤ n
unfolding take
length-take zero xs = omega arith
length-take (suc n) [] = omega arith
length-take (suc n) (x ∷ xs) = omega (arith, length-take n xs)

abbrev pub IsAccepted : Direction → Offer → Type 0
IsAccepted direction offer = (offer.state ≡ pos 3) × (offer.direction ≡ direction)

module _ (language : Language) (resolve : Text → Option ResolvedUrl) where
  -- The entries of the answer that say that the offer was accepted.
  abbrev pub is_accepted_entry : Checked ℕ → Bool
  is_accepted_entry (ok state) = state == 3
  is_accepted_entry (err error) = false

  abbrev pub count_accepted : List Js → ℕ
  count_accepted [] = 0
  count_accepted (value ∷ values) =
      if is_accepted_entry (state_of language resolve value)
      then suc (count_accepted values)
      else count_accepted values

  accepted_offer-IsAccepted :
      (descriptions : DescriptionMap) (direction : Direction) (state : ℕ) (fields : Fields)
      (offer : Offer)
      → state ≡ 3
      → accepted_offer language resolve descriptions direction state fields ≡ ok offer
      → IsAccepted direction offer
  unfolding accepted_offer
  accepted_offer-IsAccepted descriptions direction state fields offer e h =
      let (created, _, h_1) =
        >>=-eq-ok (positive_of (optional_integer language (lookup (codes "time_created") fields))) _
          h in
      let (id, _, h_2) =
        >>=-eq-ok (required_digits language (lookup (codes "tradeofferid") fields) 32) _ h_1 in
      let (partner, _, h_3) =
        >>=-eq-ok (required_digits language (lookup (codes "accountid_other") fields) 12) _ h_2 in
      let (completed, _, h_4) =
        >>=-eq-ok
          (completed_id language resolve
            (optional_string language (lookup (codes "tradeid") fields) 32))
          _ h_3 in
      let (given, _, h_5) =
        >>=-eq-ok (items_in language resolve descriptions false (codes "items_to_give") fields) _
          h_4 in
      let (taken, _, made) =
        >>=-eq-ok (items_in language resolve descriptions true (codes "items_to_receive") fields) _
          h_5 in
      (sym (ap state_in made) ∙ ap pos e, sym (ap direction_in made))
    where
      state_in : Checked Offer → ℤ
      state_in (ok o) = o.state
      state_in (err error) = pos 0

      direction_in : Checked Offer → Direction
      direction_in (ok o) = o.direction
      direction_in (err error) = direction

  kept-IsAccepted :
      (accepted : Bool) (direction : Direction) (offer : Checked Offer) (rest offers : List Offer)
      → ((o : Offer) → accepted ≡ true → offer ≡ ok o → IsAccepted direction o)
      → All (IsAccepted direction) rest
      → kept language resolve accepted offer rest ≡ ok offers
      → All (IsAccepted direction) offers
        × (length offers ≡ (if accepted then suc (length rest) else length rest))
  kept-IsAccepted true direction (ok o) rest offers holds all_rest h =
      let same : o ∷ rest ≡ offers = cc in rw⁻¹ same ((holds o refl refl, all_rest), refl)
  kept-IsAccepted true direction (err e) rest offers holds all_rest h = cc
  kept-IsAccepted false direction offer rest offers holds all_rest h =
      let same : rest ≡ offers = cc in rw⁻¹ same (all_rest, refl)

  normalize_offers-IsAccepted :
      (descriptions : DescriptionMap) (direction : Direction) (values : List Js)
      (offers : List Offer)
      → normalize_offers language resolve descriptions direction values ≡ ok offers
      → All (IsAccepted direction) offers × (length offers ≡ count_accepted values)
  unfolding normalize_offers
  normalize_offers-IsAccepted descriptions direction [] offers h =
      let same : ◌≡◌ {A = List Offer} [] offers = cc in rw⁻¹ same (tt, refl)
  normalize_offers-IsAccepted descriptions direction (value ∷ values) offers h =
      let (state, read, h_1) = >>=-eq-ok (state_of language resolve value) _ h in
      let (fields, _, h_2) = >>=-eq-ok (as_record value) _ h_1 in
      let (rest, later, made) =
        >>=-eq-ok (normalize_offers language resolve descriptions direction values)
          (kept language resolve (state == 3)
            (accepted_offer language resolve descriptions direction state fields))
          h_2 in
      let (all_rest, count) =
        normalize_offers-IsAccepted descriptions direction values rest later in
      let (all_offers, longer) =
        kept-IsAccepted (state == 3) direction
          (accepted_offer language resolve descriptions direction state fields) rest offers
          (λ o e h.
            accepted_offer-IsAccepted descriptions direction state fields o ((==_iff state 3).0 e)
              h)
          all_rest made in
      (all_offers, rw read (ground arith))

  -- What is read of an answer, over the list of all its accepted offers.
  pub record IsNewest (response : Fields) (read : OffersRead) : Type 0 where
    pub all_offers : List Offer
    pub parsed : all_accepted_offers language resolve response ≡ ok all_offers
    pub accepted : All (λ (o : Offer). o.state ≡ pos 3) all_offers
    pub counted :
        length all_offers
        ≡ count_accepted (as_array (lookup (codes "trade_offers_received") response))
          + count_accepted (as_array (lookup (codes "trade_offers_sent") response))
    pub by_age : List Offer
    pub same : Perm by_age all_offers
    pub newest_first : IsPairwise IsNoOlder by_age
    pub ties : IsAscending newest_offer_first by_age
    pub first : read.offers ≡ take 1000 by_age
    pub few : length read.offers ≤ 1000
    pub truncated : (read.truncated ≡ true) ↔ (1000 < length by_age)

  all_accepted_offers-IsAccepted :
      (response : Fields) (offers : List Offer)
      → all_accepted_offers language resolve response ≡ ok offers
      → All (λ (o : Offer). o.state ≡ pos 3) offers
        × (length offers
            ≡ count_accepted (as_array (lookup (codes "trade_offers_received") response))
              + count_accepted (as_array (lookup (codes "trade_offers_sent") response)))
  unfolding all_accepted_offers
  all_accepted_offers-IsAccepted response offers h =
      let (descriptions, _, h_1) =
        >>=-eq-ok
          (build_description_map language resolve
            (as_array (lookup (codes "descriptions") response)))
          _ h in
      let (taken, read_taken, h_2) =
        >>=-eq-ok
          (normalize_offers language resolve descriptions received
            (as_array (lookup (codes "trade_offers_received") response)))
          _ h_1 in
      let (given, read_given, made) =
        >>=-eq-ok
          (normalize_offers language resolve descriptions sent
            (as_array (lookup (codes "trade_offers_sent") response)))
          _ h_2 in
      let same : taken ++ given ≡ offers = cc in
      let (taken_fine, taken_count) =
        normalize_offers-IsAccepted descriptions received
          (as_array (lookup (codes "trade_offers_received") response)) taken read_taken in
      let (given_fine, given_count) =
        normalize_offers-IsAccepted descriptions sent
          (as_array (lookup (codes "trade_offers_sent") response)) given read_given in
      rw⁻¹ same (
        All-append (λ (o : Offer). o.state ≡ pos 3) taken given
            (All-map (λ (o : Offer) (a : IsAccepted received o). a.0) taken taken_fine)
            (All-map (λ (o : Offer) (a : IsAccepted sent o). a.0) given given_fine),
        length-append taken given ∙ ap_plus taken_count given_count,
      )
    where
      ap_plus : {a b c d : ℕ} → a ≡ c → b ≡ d → a + b ≡ c + d
      ap_plus e f = cc

  -- A read of offers that succeeds gives, of all the offers of the answer that were accepted and of no
  -- others, the first thousand in an order in which no offer was made before one that stands behind
  -- it, and says whether there were more.
  pub read_trade_offers-IsNewest :
      (reply : Checked Fields) (read : OffersRead)
      → read_trade_offers language resolve reply ≡ ok read
      → (response : Fields) × (reply ≡ ok response) × IsNewest response read
  unfolding read_trade_offers
  read_trade_offers-IsNewest reply read h =
      let (response, replied, h_1) = >>=-eq-ok reply _ h in
      let (offers, parsed, made) =
        >>=-eq-ok (all_accepted_offers language resolve response) _ h_1 in
      let (fine, count) = all_accepted_offers-IsAccepted response offers parsed in
      let same : newest_offers language resolve offers ≡ read = cc in
      (
        response,
        replied,
        rw⁻¹ same (record {
          all_offers = offers;
          parsed = parsed;
          accepted = fine;
          counted = count;
          by_age = sort newest_offer_first offers;
          same = sort-perm newest_offer_first offers;
          newest_first =
              IsPairwise-of_ascending newest_offer_first IsNoOlder newest_offer_first-IsNoOlder
                (λ x y z h k. omega (arith, h, k)) (sort newest_offer_first offers)
                (sort-IsAscending newest_offer_first
                  (λ x y. asymmetric_of_Flips _ _ (newest-Flips x y)) offers);
          ties =
              sort-IsAscending newest_offer_first
                (λ x y. asymmetric_of_Flips _ _ (newest-Flips x y)) offers;
          first = refl;
          few = length-take 1000 (sort newest_offer_first offers);
          truncated = (
            ltb→lt 1000 (length (sort newest_offer_first offers)),
            lt→ltb 1000 (length (sort newest_offer_first offers)),
          );
        }),
      )
