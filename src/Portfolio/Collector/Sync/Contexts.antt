-- ===== src/Portfolio/Collector/Sync/Contexts.antt =====
-- background/portfolio-collector.ts: the two contexts of an inventory that a run has read.
use csboard_extension.Prelude.{
  ◌≡◌, refl, Bool, true, false, not, ◌||◌, arith, Bool-cases, ◌⊎◌, inl, inr,
}
use csboard_extension.Prelude.Text.{codes}
use csboard_extension.Shared.Result.{ok, err}
use csboard_extension.Portfolio.Collector.Failure.{Failure}
use csboard_extension.Portfolio.Collector.Trades.{
  InventoryRead, Reply, on_reply, SteamReadSessionProvider,
}
use csboard_extension.Portfolio.Collector.Trades.Pages.{Replies}
use csboard_extension.Portfolio.Collector.Sync.{
  no_inventory, both_complete, inventory_read_failed, read_contexts,
}

module _ {W : Type 0} (provider : SteamReadSessionProvider W) (start : W) where
  -- The two contexts as the provider gives them, one behind the other.
  pub record AreRead (context_2 context_16 : InventoryRead) : Type 0 where
    pub between : W
    pub after : W
    pub first : provider.read_inventory_context (codes "2") start ≡ (ok context_2, between)
    pub second : provider.read_inventory_context (codes "16") between ≡ (ok context_16, after)

  abbrev pub AreContexts : Bool → InventoryRead × InventoryRead → Type 0
  AreContexts enabled (context_2, context_16) =
      ((enabled ≡ true)
        × (context_2.complete ≡ true)
        × (context_16.complete ≡ true)
        × AreRead context_2 context_16)
      ⊎ ((enabled ≡ false) × (context_2 ≡ no_inventory) × (context_16 ≡ no_inventory))

  both_complete-AreContexts :
      (context_2 context_16 : InventoryRead) (w : W)
      → AreRead context_2 context_16
      → Replies (AreContexts true) (both_complete provider context_2 context_16 w)
  both_complete-AreContexts context_2 context_16 w r =
      elim (Bool-cases (not context_2.complete || not context_16.complete)) [
        | inl e ↦ rw e tt
        | inr e ↦ rw e (inl (refl, ground arith, ground arith, r))
      ]

  on_reply-Replies_eq :
      {T U : Type 0} (J : U → Type 0) (reply : Reply W T) (fulfilled : T → W → Reply W U)
      (rejected : Failure → W → Reply W U)
      → ((value : T) (w : W) → reply ≡ (ok value, w) → Replies J (fulfilled value w))
      → ((error : Failure) (w : W) → Replies J (rejected error w))
      → Replies J (on_reply reply fulfilled rejected)
  on_reply-Replies_eq J (ok value, w) fulfilled rejected hf hr = hf value w refl
  on_reply-Replies_eq J (err error, w) fulfilled rejected hf hr = hr error w

  pub read_contexts-AreContexts :
      (enabled : Bool) → Replies (AreContexts enabled) (read_contexts provider enabled start)
  unfolding read_contexts
  read_contexts-AreContexts false = inr (refl, refl, refl)
  read_contexts-AreContexts true =
      on_reply-Replies_eq (AreContexts true) (provider.read_inventory_context (codes "2") start)
        (λ context_2 w.
          on_reply (provider.read_inventory_context (codes "16") w)
            (both_complete provider context_2) (λ error w'. inventory_read_failed provider w'))
        (λ error w. inventory_read_failed provider w)
        (λ context_2 w e_2.
          on_reply-Replies_eq (AreContexts true) (provider.read_inventory_context (codes "16") w)
            (both_complete provider context_2) (λ error w'. inventory_read_failed provider w')
            (λ context_16 w' e_16.
              both_complete-AreContexts context_2 context_16 w'
                (record { between = w; after = w'; first = e_2; second = e_16 }))
            (λ error w'. tt))
        (λ error w. tt)
