-- ===== src/Listing/Request.antt =====
-- background/p2p-listing-client.ts: `assertApiBase`, and how `request` reads an answer. The network
-- and `JSON.parse` are parameters.
use csboard_extension.Prelude.{
  ℕ, ◌*◌, Bool, true, false, not, ◌&&◌, ◌||◌, Option, none, some, [], ◌∷◌, leb, ltb, ◌==◌, length,
  if◌then◌else◌,
}
use csboard_extension.Prelude.Text.{Text, codes, includes}
use csboard_extension.Shared.Result.{ok, err, ◌>>◌, throw_if}
use csboard_extension.Gateway.Payload.{Js}
use csboard_extension.Listing.Records.{
  ListingError, api_origin_not_allowed, auth_required, listing_unavailable, review_stale,
  rate_limited, request_rejected, backend_unavailable, invalid_backend_response, foreign, Checked,
}

abbrev pub max_response_chars : ℕ
max_response_chars = 512 * 1024

-- The text without one slash at its end.
unfoldable pub without_last_slash : Text → Text
without_last_slash [] = []
without_last_slash (c ∷ []) = if c == b'/' then [] else c ∷ []
without_last_slash (c ∷ d ∷ s) = c ∷ without_last_slash (d ∷ s)

unfoldable pub assert_api_base : Text → Checked Text
unfolding without_last_slash
assert_api_base value =
    let normalized = without_last_slash value in
    throw_if
      (not (
        includes (codes "https://csboard.com/api" ∷ codes "https://csboard.trade/api" ∷ [])
          normalized))
      api_origin_not_allowed
    >> ok normalized

unfoldable pub safe_backend_error : ℕ → ListingError
safe_backend_error status =
    if status == 401 || status == 403
    then auth_required
    else if status == 404
    then listing_unavailable
    else if status == 409 || status == 410
    then review_stale
    else if status == 429
    then rate_limited
    else if leb 400 status && ltb status 500
    then request_rejected
    else backend_unavailable

abbrev pub is_terminal_commit_error : ListingError → Bool
is_terminal_commit_error auth_required = true
is_terminal_commit_error listing_unavailable = true
is_terminal_commit_error review_stale = true
is_terminal_commit_error rate_limited = true
is_terminal_commit_error request_rejected = true
is_terminal_commit_error _ = false

-- `fetch` fails, or answers with a body, which may fail to be read.
pub record Response : Type 0 where
  pub status : ℕ
  pub is_ok : Bool
  pub text : Option Text

-- The base of the API as it was read, and checked.
abbrev pub checked_base : Option Text → Checked Text
checked_base none = err foreign
checked_base (some base) = assert_api_base base

module _ (parse_json : Text → Option Js) where
  abbrev pub parsed : Option Js → Checked Js
  parsed none = err invalid_backend_response
  parsed (some value) = ok value

  abbrev pub body_of : Option Text → Checked Js
  body_of none = err backend_unavailable
  body_of (some text) =
      throw_if (length text == 0 || ltb max_response_chars (length text)) invalid_backend_response
      >> parsed (parse_json text)

  unfoldable pub answer_of : Option Response → Checked Js
  unfolding safe_backend_error
  answer_of none = err backend_unavailable
  answer_of (some response) =
      throw_if (not response.is_ok) (safe_backend_error response.status) >> body_of response.text
