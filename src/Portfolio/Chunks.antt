-- ===== src/Portfolio/Chunks.antt =====
-- shared/portfolio-dto.ts: `toChunk` and `chunkPortfolioSnapshot`.
pub mod Whole
use csboard_extension.Prelude.{
  ℕ, suc, ◌*◌, Bool, ◌||◌, Option, none, some, List, [], ◌∷◌, ◌++◌, map, length, ltb,
}
use csboard_extension.Prelude.Int.{pos}
use csboard_extension.Prelude.Text.{Text, codes}
use csboard_extension.Shared.Result.{ok, ◌>>=◌, ◌>>◌, throw_if}
use csboard_extension.Gateway.Error.{Checked, invalid, payload_too_large}
use csboard_extension.Gateway.Message.{max_gateway_plaintext_bytes}
use csboard_extension.Gateway.Payload.Size.{byte_length_of_canonical_json}
use csboard_extension.Portfolio.Records.{Item, Trade, Offer, Snapshot, Chunk}
use csboard_extension.Portfolio.Json.{chunk_js}
use csboard_extension.Portfolio.Fields.{Url}
use csboard_extension.Portfolio.Sort.{sort_portfolio_snapshot}
use csboard_extension.Portfolio.Packing.{pack}

abbrev pub target_gateway_chunk_bytes : ℕ
target_gateway_chunk_bytes = 128 * 1024

pub data ChunkRecord : Type 0 where
  inventory : Item → ChunkRecord
  trade : Trade → ChunkRecord
  offer : Offer → ChunkRecord

abbrev pub item_of : ChunkRecord → Option Item
item_of (inventory value) = some value
item_of (trade value) = none
item_of (offer value) = none

abbrev pub trade_of : ChunkRecord → Option Trade
trade_of (inventory value) = none
trade_of (trade value) = some value
trade_of (offer value) = none

abbrev pub offer_of : ChunkRecord → Option Offer
offer_of (inventory value) = none
offer_of (trade value) = none
offer_of (offer value) = some value

-- `filter` for a type of record, and `map` to its value.
abbrev pub pick {ℓ κ} : {A : Type ℓ} {B : Type κ} → (A → Option B) → List A → List B
pick f [] = []
pick f (x ∷ xs) = elim (f x) [ none ↦ pick f xs | some y ↦ y ∷ pick f xs ]

abbrev pub to_chunk : Snapshot → ℕ → ℕ → List ChunkRecord → Chunk
to_chunk snapshot chunk_index chunk_count records = record {
  kind = codes "portfolio.sync.chunk.v1";
  sync_run_id = snapshot.sync_run_id;
  steam_id = snapshot.steam_id;
  captured_at = snapshot.captured_at;
  chunk_index = pos chunk_index;
  chunk_count = pos chunk_count;
  sources = snapshot.sources;
  completeness = snapshot.completeness;
  inventory_items = pick item_of records;
  trades = pick trade_of records;
  offers = pick offer_of records;
}

abbrev pub chunk_records : Snapshot → List ChunkRecord
chunk_records snapshot =
    map inventory snapshot.inventory_items
    ++ (map trade snapshot.trades ++ map offer snapshot.offers)

abbrev pub provisional_bytes : Snapshot → ℕ → List ChunkRecord → Checked ℕ
provisional_bytes snapshot chunk_index candidate =
    byte_length_of_canonical_json (chunk_js (to_chunk snapshot chunk_index 999999 candidate))

abbrev pub chunks_from : Snapshot → ℕ → ℕ → List (List ChunkRecord) → List Chunk
chunks_from snapshot chunk_count index [] = []
chunks_from snapshot chunk_count index (group ∷ groups) =
    to_chunk snapshot index chunk_count group ∷ chunks_from snapshot chunk_count (suc index) groups

abbrev pub check_chunk_sizes : List Chunk → Checked (Unit {0})
check_chunk_sizes [] = ok tt
check_chunk_sizes (chunk ∷ chunks) = byte_length_of_canonical_json (chunk_js chunk) >>= (λ bytes.
    throw_if (ltb max_gateway_plaintext_bytes bytes)
      (record { code = payload_too_large; reason = none })
    >> check_chunk_sizes chunks)

abbrev pub checked_chunks : Snapshot → List (List ChunkRecord) → Checked (List Chunk)
checked_chunks snapshot groups =
    let chunks = chunks_from snapshot (length groups) 0 groups in
    check_chunk_sizes chunks >> ok chunks

abbrev pub chunks_of_sorted : ℕ → Snapshot → Checked (List Chunk)
chunks_of_sorted target_bytes snapshot =
    pack (provisional_bytes snapshot) target_bytes (chunk_records snapshot) [] []
    >>= checked_chunks snapshot

-- The target is a safe integer, as the callers' constant is.
unfoldable pub chunk_portfolio_snapshot : (Text → Option Url) → Snapshot → ℕ → Checked (List Chunk)
chunk_portfolio_snapshot parse_url input target_bytes =
    throw_if (ltb target_bytes (16 * 1024) || ltb max_gateway_plaintext_bytes target_bytes)
      (invalid "invalid-chunk-size")
    >> (sort_portfolio_snapshot parse_url input >>= chunks_of_sorted target_bytes)
