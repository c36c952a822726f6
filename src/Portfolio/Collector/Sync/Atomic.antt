-- ===== src/Portfolio/Collector/Sync/Atomic.antt =====
-- background/portfolio-collector.ts: what the reads make of a snapshot.
use csboard_extension.Prelude.{
  ◌≡◌, refl, ◌∙◌, ap, true, false, not, Option, [], ◌++◌, map, arith, ◌⊎◌, inl, inr,
}
use csboard_extension.Prelude.Text.{Text}
use csboard_extension.Shared.Result.{ok, throw_if, ◌>>◌, ◌>>=◌, >>-eq-ok, >>=-eq-ok}
use csboard_extension.Gateway.Error.{invalid}
use csboard_extension.Gateway.Payload.{assert_safe_gateway_payload}
use csboard_extension.Portfolio.Records.{Sources, Snapshot}
use csboard_extension.Portfolio.Json.{snapshot_js}
use csboard_extension.Portfolio.Fields.{Url}
use csboard_extension.Portfolio.Checks.{assert_portfolio_snapshot}
use csboard_extension.Portfolio.Checks.Sound.{IsSoundSnapshot, assert_portfolio_snapshot_sound}
use csboard_extension.Portfolio.Sort.{sorted_snapshot}
use csboard_extension.Portfolio.Chunks.{target_gateway_chunk_bytes, chunk_portfolio_snapshot}
use csboard_extension.Portfolio.Chunks.Whole.{IsChunking, chunk_portfolio_snapshot-IsChunking}
use csboard_extension.Portfolio.Collector.Trades.{InventoryRead}
use csboard_extension.Portfolio.Collector.Snapshot.{
  CollectorOptions, CollectedSync, Reads, minimize_inventory_item_for_gateway, exceeds_run_contract,
  has_usable_source, kept_items, collected_snapshot, sync_summary, with_chunks, finish_sync,
}
use csboard_extension.Portfolio.Collector.Sync.{no_inventory}

module _ (sources : Sources) (reads : Reads) where
  -- Both contexts are complete, or the inventory is not a source and nothing was read.
  abbrev pub AreWhole : Type 0
  AreWhole =
      ((sources.inventory ≡ true)
        × (reads.context_2.complete ≡ true)
        × (reads.context_16.complete ≡ true))
      ⊎ ((sources.inventory ≡ false)
          × (reads.context_2 ≡ no_inventory)
          × (reads.context_16 ≡ no_inventory))

pub record IsFinished (options : CollectorOptions) (sources : Sources) (reads : Reads)
    (c : CollectedSync) : Type 0 where
  pub made : c.snapshot ≡ collected_snapshot options sources reads
  pub counted : c.summary ≡ sync_summary options sources reads c.chunks
  pub sound : IsSoundSnapshot c.snapshot
  pub chunking : IsChunking (sorted_snapshot c.snapshot) c.chunks

module _ (parse_url : Text → Option Url) (options : CollectorOptions) (sources : Sources)
    (reads : Reads) where
  abbrev snapshot : Snapshot
  snapshot = collected_snapshot options sources reads

  pub finish_sync-IsFinished :
      (c : CollectedSync)
      → finish_sync parse_url options sources reads ≡ ok c
      → IsFinished options sources reads c
  unfolding finish_sync
  finish_sync-IsFinished c h =
      let (checks, later) =
        >>-eq-ok
          (throw_if (not (has_usable_source sources reads)) (invalid "steam-read-failed")
            >> assert_safe_gateway_payload (snapshot_js snapshot)
            >> assert_portfolio_snapshot parse_url snapshot)
          (chunk_portfolio_snapshot parse_url snapshot target_gateway_chunk_bytes
            >>= with_chunks options sources reads)
          h in
      let (chunks, cut, e) =
        >>=-eq-ok (chunk_portfolio_snapshot parse_url snapshot target_gateway_chunk_bytes)
          (with_chunks options sources reads) later in
      let (passed, chunking) =
        chunk_portfolio_snapshot-IsChunking parse_url snapshot target_gateway_chunk_bytes chunks
          cut in
      let made : c ≡ record {
        snapshot = snapshot;
        chunks = chunks;
        summary = sync_summary options sources reads chunks;
      } =
        ground arith in
      rw made (record {
        made = refl;
        counted = refl;
        sound = assert_portfolio_snapshot_sound parse_url snapshot passed;
        chunking = chunking;
      })

-- The inventory of a snapshot is that of two complete contexts, or there is none of it.
pub record IsAtomic (reads : Reads) (s : Snapshot) : Type 0 where
  pub together : s.completeness.inventory_context_2 ≡ s.completeness.inventory_context_16
  pub no_part : s.completeness.inventory_context_2 ≡ false → s.inventory_items ≡ []
  pub whole :
      s.completeness.inventory_context_2 ≡ true
      → s.inventory_items
        ≡ map minimize_inventory_item_for_gateway (reads.context_2.items ++ reads.context_16.items)

kept_items-within :
    (sources : Sources) (reads : Reads)
    → exceeds_run_contract sources reads ≡ false
    → kept_items sources reads
      ≡ map minimize_inventory_item_for_gateway (reads.context_2.items ++ reads.context_16.items)
kept_items-within sources reads h = rw h refl

kept_items-beyond :
    (sources : Sources) (reads : Reads)
    → exceeds_run_contract sources reads ≡ true
    → kept_items sources reads ≡ []
kept_items-beyond sources reads h = rw h refl

kept_items-none :
    (sources : Sources) (reads : Reads)
    → sources.inventory ≡ false
    → reads.context_2 ≡ no_inventory
    → reads.context_16 ≡ no_inventory
    → kept_items sources reads ≡ []
kept_items-none sources reads off e2 e16 =
    kept_items-within sources reads (ground arith)
    ∙ ap (λ c. map minimize_inventory_item_for_gateway (c ++ reads.context_16.items))
        (ap (λ (i : InventoryRead). i.items) e2)
    ∙ ap (λ c. map minimize_inventory_item_for_gateway c) (ap (λ (i : InventoryRead). i.items) e16)

pub collected_snapshot-IsAtomic :
    (options : CollectorOptions) (sources : Sources) (reads : Reads)
    → AreWhole sources reads
    → IsAtomic reads (collected_snapshot options sources reads)
unfolding collected_snapshot
collected_snapshot-IsAtomic options sources reads (inl (on, whole_2, whole_16)) = record {
  together = ground arith;
  no_part = λ h. kept_items-beyond sources reads (ground arith);
  whole = λ h. kept_items-within sources reads (ground arith);
}
collected_snapshot-IsAtomic options sources reads (inr (off, none_2, none_16)) =
    let incomplete_2 = ap (λ (i : InventoryRead). i.complete) none_2 in
    let incomplete_16 = ap (λ (i : InventoryRead). i.complete) none_16 in
    record {
      together = ground arith;
      no_part = λ h. kept_items-none sources reads off none_2 none_16;
      whole = λ h. ground arith;
    }
