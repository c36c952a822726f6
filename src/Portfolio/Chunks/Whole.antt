-- ===== src/Portfolio/Chunks/Whole.antt =====
-- shared/portfolio-dto.ts: the chunks of a snapshot hold it all, in order, each within the limit.
use csboard_extension.Prelude.{
  ℕ, suc, ◌≤◌, ◌≡◌, refl, sym, ◌∙◌, ap, ◌||◌, Option, none, some, List, [], ◌∷◌, ◌++◌, map, arith,
  length, ltb, concat, append_nil, ◌*◌, All,
}
use csboard_extension.Prelude.Int.{pos}
use csboard_extension.Prelude.Text.{Text}
use csboard_extension.Shared.Result.{ok, throw_if, throw_if-eq-ok, >>-eq-ok, >>=-eq-ok}
use csboard_extension.Gateway.Error.{invalid, payload_too_large}
use csboard_extension.Gateway.Message.{max_gateway_plaintext_bytes, max_gateway_chunks_per_run}
use csboard_extension.Gateway.Payload.Size.{byte_length_of_canonical_json}
use csboard_extension.Portfolio.Records.{Snapshot, Chunk}
use csboard_extension.Portfolio.Json.{chunk_js}
use csboard_extension.Portfolio.Fields.{Url}
use csboard_extension.Portfolio.Checks.{assert_portfolio_snapshot}
use csboard_extension.Portfolio.Sort.{sorted_snapshot, sort_portfolio_snapshot}
use csboard_extension.Portfolio.Packing.{pack}
use csboard_extension.Portfolio.Packing.Greedy.{IsPacking, pack-IsPacking}
use csboard_extension.Portfolio.Chunks.{
  ChunkRecord, inventory, trade, offer, item_of, trade_of, offer_of, pick, to_chunk, chunk_records,
  provisional_bytes, chunks_from, check_chunk_sizes, checked_chunks, chunks_of_sorted,
  chunk_portfolio_snapshot,
}

module _ {ℓ κ} {A : Type ℓ} {B : Type κ} (f : A → Option B) where
  pick-append : (xs ys : List A) → pick f (xs ++ ys) ≡ pick f xs ++ pick f ys
  pick-append [] ys = refl
  pick-append (x ∷ xs) ys = ground (arith, pick-append xs ys)

  pick-concat : (gs : List (List A)) → concat (map (pick f) gs) ≡ pick f (concat gs)
  pick-concat [] = refl
  pick-concat (g ∷ gs) = ap (λ l. pick f g ++ l) (pick-concat gs) ∙ sym (pick-append g (concat gs))

pick-map-some {ℓ κ} :
    {A : Type ℓ} {B : Type κ} (f : A → Option B) (g : B → A)
    → ((y : B) → f (g y) ≡ some y)
    → (ys : List B) → pick f (map g ys) ≡ ys
pick-map-some f g e [] = refl
pick-map-some f g e (y ∷ ys) = ground (arith, e y, pick-map-some f g e ys)

pick-map-none {ℓ κ μ} :
    {A : Type ℓ} {B : Type κ} {C : Type μ} (f : A → Option B) (g : C → A)
    → ((y : C) → f (g y) ≡ none)
    → (ys : List C) → pick f (map g ys) ≡ []
pick-map-none f g e [] = refl
pick-map-none f g e (y ∷ ys) = ground (arith, e y, pick-map-none f g e ys)

picked_items :
    (s : Snapshot)
    → (pick item_of (chunk_records s) ≡ s.inventory_items)
      × (pick trade_of (chunk_records s) ≡ s.trades)
      × (pick offer_of (chunk_records s) ≡ s.offers)
picked_items s = (
  rw
      (
        pick-append item_of (map inventory s.inventory_items)
            (map trade s.trades ++ map offer s.offers),
        pick-append item_of (map trade s.trades) (map offer s.offers),
        pick-map-some item_of inventory (λ y. refl) s.inventory_items,
        pick-map-none item_of trade (λ y. refl) s.trades,
        pick-map-none item_of offer (λ y. refl) s.offers,
      )
      (append_nil s.inventory_items),
  rw
      (
        pick-append trade_of (map inventory s.inventory_items)
            (map trade s.trades ++ map offer s.offers),
        pick-append trade_of (map trade s.trades) (map offer s.offers),
        pick-map-none trade_of inventory (λ y. refl) s.inventory_items,
        pick-map-some trade_of trade (λ y. refl) s.trades,
        pick-map-none trade_of offer (λ y. refl) s.offers,
      )
      (append_nil s.trades),
  rw
      (
        pick-append offer_of (map inventory s.inventory_items)
            (map trade s.trades ++ map offer s.offers),
        pick-append offer_of (map trade s.trades) (map offer s.offers),
        pick-map-none offer_of inventory (λ y. refl) s.inventory_items,
        pick-map-none offer_of trade (λ y. refl) s.trades,
        pick-map-some offer_of offer (λ y. refl) s.offers,
      )
      refl,
)

-- The chunk at a place names the run, the account and the time of the snapshot, its own place and
-- the number of chunks.
pub record IsChunkAt (s : Snapshot) (count index : ℕ) (c : Chunk) : Type 0 where
  pub run : c.sync_run_id ≡ s.sync_run_id
  pub owner : c.steam_id ≡ s.steam_id
  pub time : c.captured_at ≡ s.captured_at
  pub sources : c.sources ≡ s.sources
  pub completeness : c.completeness ≡ s.completeness
  pub place : c.chunk_index ≡ pos index
  pub total : c.chunk_count ≡ pos count

abbrev pub IsNumbered : Snapshot → ℕ → ℕ → List Chunk → Type 0
IsNumbered s count index [] = Unit
IsNumbered s count index (c ∷ cs) = IsChunkAt s count index c × IsNumbered s count (suc index) cs

abbrev pub IsWithinLimit : Chunk → Type 0
IsWithinLimit c =
    (bytes : ℕ) × (byte_length_of_canonical_json (chunk_js c) ≡ ok bytes)
    × (bytes ≤ max_gateway_plaintext_bytes)

pub record IsChunking (s : Snapshot) (chunks : List Chunk) : Type 0 where
  pub items : concat (map (λ (c : Chunk). c.inventory_items) chunks) ≡ s.inventory_items
  pub trades : concat (map (λ (c : Chunk). c.trades) chunks) ≡ s.trades
  pub offers : concat (map (λ (c : Chunk). c.offers) chunks) ≡ s.offers
  pub nonempty : 1 ≤ length chunks
  pub few : length chunks ≤ max_gateway_chunks_per_run
  pub numbered : IsNumbered s (length chunks) 0 chunks
  pub within_limit : All IsWithinLimit chunks

module _ (s : Snapshot) (n : ℕ) where
  length-chunks_from :
      (i : ℕ) (groups : List (List ChunkRecord)) → length (chunks_from s n i groups) ≡ length groups
  length-chunks_from i [] = refl
  length-chunks_from i (g ∷ gs) = ap suc (length-chunks_from (suc i) gs)

  chunks_from-IsNumbered :
      (i : ℕ) (groups : List (List ChunkRecord)) → IsNumbered s n i (chunks_from s n i groups)
  chunks_from-IsNumbered i [] = tt
  chunks_from-IsNumbered i (g ∷ gs) = (
    record {
      run = refl;
      owner = refl;
      time = refl;
      sources = refl;
      completeness = refl;
      place = refl;
      total = refl;
    },
    chunks_from-IsNumbered (suc i) gs,
  )

  map-chunks_from :
      {B : Type 0} (get : Chunk → List B) (f : ChunkRecord → Option B)
      → ((i : ℕ) (g : List ChunkRecord) → get (to_chunk s i n g) ≡ pick f g)
      → (i : ℕ) (groups : List (List ChunkRecord))
      → map get (chunks_from s n i groups) ≡ map (pick f) groups
  map-chunks_from get f e i [] = refl
  map-chunks_from get f e i (g ∷ gs) =
      ap (λ l. get (to_chunk s i n g) ∷ l) (map-chunks_from get f e (suc i) gs)
      ∙ ap (λ l. l ∷ map (pick f) gs) (e i g)

  gathered :
      {B : Type 0} (get : Chunk → List B) (f : ChunkRecord → Option B)
      → ((i : ℕ) (g : List ChunkRecord) → get (to_chunk s i n g) ≡ pick f g)
      → (groups : List (List ChunkRecord)) (records : List ChunkRecord) → concat groups ≡ records
      → concat (map get (chunks_from s n 0 groups)) ≡ pick f records
  gathered get f e groups records whole =
      ap concat (map-chunks_from get f e 0 groups) ∙ pick-concat f groups ∙ ap (pick f) whole

check_chunk_sizes-IsWithinLimit :
    (chunks : List Chunk) → check_chunk_sizes chunks ≡ ok tt → All IsWithinLimit chunks
check_chunk_sizes-IsWithinLimit [] h = tt
check_chunk_sizes-IsWithinLimit (c ∷ cs) h =
    let (bytes, measured, later) = >>=-eq-ok (byte_length_of_canonical_json (chunk_js c)) _ h in
    let (small, rest) =
      >>-eq-ok
        (throw_if (ltb max_gateway_plaintext_bytes bytes)
          (record { code = payload_too_large; reason = none }))
        (check_chunk_sizes cs) later in
    let le = throw_if-eq-ok _ _ small in
    ((bytes, measured, ground arith), check_chunk_sizes-IsWithinLimit cs rest)

packing-IsChunking :
    (target : ℕ) (s : Snapshot) (groups : List (List ChunkRecord))
    → IsPacking (provisional_bytes s) target (chunk_records s) groups
    → check_chunk_sizes (chunks_from s (length groups) 0 groups) ≡ ok tt
    → IsChunking s (chunks_from s (length groups) 0 groups)
packing-IsChunking target s groups packing sizes =
    let n = length groups in
    let same = length-chunks_from s n 0 groups in
    let (items, trades, offers) = picked_items s in
    record {
      items =
          gathered s n (λ c. c.inventory_items) item_of (λ i g. refl) groups _ packing.whole
          ∙ items;
      trades = gathered s n (λ c. c.trades) trade_of (λ i g. refl) groups _ packing.whole ∙ trades;
      offers = gathered s n (λ c. c.offers) offer_of (λ i g. refl) groups _ packing.whole ∙ offers;
      nonempty = rw same packing.nonempty;
      few = rw same packing.few;
      numbered = rw same (chunks_from-IsNumbered s n 0 groups);
      within_limit = check_chunk_sizes-IsWithinLimit _ sizes;
    }

chunks_of_sorted-IsChunking :
    (target : ℕ) (s : Snapshot) (chunks : List Chunk)
    → chunks_of_sorted target s ≡ ok chunks
    → IsChunking s chunks
chunks_of_sorted-IsChunking target s chunks h =
    let (groups, packed, checked) =
      >>=-eq-ok (pack (provisional_bytes s) target (chunk_records s) [] []) (checked_chunks s) h in
    let (sizes, e) =
      >>-eq-ok (check_chunk_sizes (chunks_from s (length groups) 0 groups)) _ checked in
    let same : chunks ≡ chunks_from s (length groups) 0 groups = ground arith in
    rw same (
      packing-IsChunking target s groups
        (pack-IsPacking (provisional_bytes s) target (chunk_records s) groups packed) sizes)

-- The chunks of a snapshot that passes its check hold together, in their order, exactly the items,
-- trades and offers of the sorted snapshot; they are numbered from 0, each with their true number,
-- of 1 to 64, and none has more than 192 KiB of canonical JSON.
pub chunk_portfolio_snapshot-IsChunking :
    (parse_url : Text → Option Url) (input : Snapshot) (target : ℕ) (chunks : List Chunk)
    → chunk_portfolio_snapshot parse_url input target ≡ ok chunks
    → (assert_portfolio_snapshot parse_url input ≡ ok tt)
      × IsChunking (sorted_snapshot input) chunks
unfolding chunk_portfolio_snapshot sort_portfolio_snapshot
chunk_portfolio_snapshot-IsChunking parse_url input target chunks h =
    let (guard, later) =
      >>-eq-ok
        (throw_if (ltb target (16 * 1024) || ltb max_gateway_plaintext_bytes target)
          (invalid "invalid-chunk-size"))
        _ h in
    let (s, sorted, cut) = >>=-eq-ok (sort_portfolio_snapshot parse_url input) _ later in
    let (passed, e) = >>-eq-ok (assert_portfolio_snapshot parse_url input) _ sorted in
    let same : sorted_snapshot input ≡ s = ground arith in
    (passed, rw same (chunks_of_sorted-IsChunking target s chunks cut))
