-- ===== src/Session/Inventory/Whole.antt =====
-- background/steam-read-session-provider.ts: `readInventoryContext` against the chain of pages that
-- Steam gives.
use csboard_extension.Prelude.{
  ℕ, zero, suc, ◌≤◌, ◌≡◌, ◌↔◌, ◌∙◌, inl, inr, refl, ap, arith, Bool, true, false, ◌||◌, Option,
  none, some, List, [], ◌∷◌, ◌++◌, length, concat, append_nil, Bool-cases,
}
use csboard_extension.Prelude.Text.{Text, codes, ◌===◌}
use csboard_extension.Shared.Result.{ok, err, >>=-eq-ok}
use csboard_extension.Gateway.Error.{Checked}
use csboard_extension.Gateway.Payload.{Fields}
use csboard_extension.Portfolio.Records.{Item}
use csboard_extension.Session.Values.{Language}
use csboard_extension.Session.Items.{ResolvedUrl}
use csboard_extension.Session.Assets.{AssetProperties}
use csboard_extension.Session.Inventory.{
  has_more_items, next_start, page_items, PageEnd, ended, read_page, prepend, follow_page,
  read_pages, complete_read, read_inventory_context,
}

module _ (language : Language) (resolve : Text → Option ResolvedUrl)
    (decode : Option Fields → AssetProperties) (context_id : Text) (now : ℕ) {W : Type 0}
    (fetch : Option Text → W → Checked Fields × W) where
  -- The pages of a chain of answers: each answer but the last says that more follow and where, and
  -- the next page is fetched from there.
  pub data Chain : Option Text → W → List (List Item) → W → Type 0 where
    last_page :
        {start : Option Text} {w w' : W} (response : Fields) (page : List Item)
        → fetch start w ≡ (ok response, w')
        → page_items language resolve decode context_id now response ≡ ok page
        → has_more_items language response ≡ false
        → Chain start w (page ∷ []) w'
    more_pages :
        {start : Option Text} {w w' w'' : W} {pages : List (List Item)} (response : Fields)
        (page : List Item) (next : Text)
        → fetch start w ≡ (ok response, w')
        → page_items language resolve decode context_id now response ≡ ok page
        → has_more_items language response ≡ true
        → next_start language start response ≡ some next
        → Chain (some next) w' pages w''
        → Chain start w (page ∷ pages) w''

  abbrev page_of :
      Option Text → Checked Fields → Checked (PageEnd language resolve decode context_id now fetch)
  page_of start reply = read_page language resolve decode context_id now fetch start reply

  abbrev pages_from : ℕ → Option Text → W → Checked (List Item) × W
  pages_from n start w = read_pages language resolve decode context_id now fetch n start w

  -- How a page may end.
  abbrev Ends : Bool → Option Text → Option Text → Type 0
  Ends more follow none = more ≡ false
  Ends more follow (some id) = (more ≡ true) × (follow ≡ some id)

  abbrev EndsWith : Option Text → Checked Fields → List Item → Option Text → Type 0
  EndsWith start reply page next =
      (response : Fields) × (reply ≡ ok response)
      × (page_items language resolve decode context_id now response ≡ ok page)
      × Ends (has_more_items language response) (next_start language start response) next

  ended-Ends :
      (page own : List Item) (more : Bool) (follow next : Option Text)
      → ended language resolve decode context_id now fetch own more follow ≡ ok (page, next)
      → (own ≡ page) × Ends more follow next
  ended-Ends page own false follow none h = (cc, refl)
  ended-Ends page own false follow (some id) h = cc
  ended-Ends page own true none next h = cc
  ended-Ends page own true (some id) none h = cc
  ended-Ends page own true (some id) (some next) h = (cc, (refl, cc))

  read_page-EndsWith :
      (start : Option Text) (reply : Checked Fields) (page : List Item) (next : Option Text)
      → page_of start reply ≡ ok (page, next)
      → EndsWith start reply page next
  unfolding read_page
  read_page-EndsWith start reply page next h =
      let (response, replied, h_1) = >>=-eq-ok reply _ h in
      let (own, read, h_2) =
        >>=-eq-ok (page_items language resolve decode context_id now response) _ h_1 in
      let (same, ends) =
        ended-Ends page own (has_more_items language response) (next_start language start response)
          next h_2 in
      (response, replied, read ∙ ap ok same, ends)

  abbrev Chained : ℕ → Option Text → W → List Item → W → Type 0
  Chained n start w items w' =
      (pages : List (List Item)) × Chain start w pages w'
      × (length pages ≤ n)
      × (concat pages ≡ items)

  prepend-eq-ok :
      (page : List Item) (r : Checked (List Item) × W) (items : List Item) (w' : W)
      → prepend language resolve decode context_id now fetch page r ≡ (ok items, w')
      → (rest : List Item) × (r ≡ (ok rest, w')) × (page ++ rest ≡ items)
  prepend-eq-ok page (ok rest, w) items w' h = (rest, ground arith, ground arith)
  prepend-eq-ok page (err e, w) items w' h = ground arith

  -- One round, with the later ones as induction gives them.
  follow-Chained :
      (n : ℕ) (start : Option Text) (w w_1 w' : W) (reply : Checked Fields) (items : List Item)
      (ending : Checked (PageEnd language resolve decode context_id now fetch))
      → fetch start w ≡ (reply, w_1)
      → page_of start reply ≡ ending
      → ((id : Text) (rest : List Item)
          → pages_from n (some id) w_1 ≡ (ok rest, w')
          → Chained n (some id) w_1 rest w')
      → follow_page language resolve decode context_id now fetch (pages_from n) (ending, w_1)
        ≡ (ok items, w')
      → Chained (suc n) start w items w'
  follow-Chained n start w w_1 w' reply items (err e) fetched paged ih h = ground arith
  follow-Chained n start w w_1 w' reply items (ok (page, none)) fetched paged ih h =
      let (response, replied, read, stops) = read_page-EndsWith start reply page none paged in
      let same_items : page ≡ items = ground arith in
      let same_world : w_1 ≡ w' = ground arith in
      (
        page ∷ [],
        last_page response page (cc) read stops,
        omega arith,
        append_nil page ∙ same_items,
      )
  follow-Chained n start w w_1 w' reply items (ok (page, some id)) fetched paged ih h =
      let (response, replied, read, (more, onward)) =
        read_page-EndsWith start reply page (some id) paged in
      let (rest, later, whole) = prepend-eq-ok page (pages_from n (some id) w_1) items w' h in
      let (pages, chain, few, joined) = ih id rest later in
      (
        page ∷ pages,
        more_pages response page id (cc) read more onward chain,
        omega arith,
        ap (λ l. page ++ l) joined ∙ whole,
      )

  read_pages-Chained :
      (n : ℕ) (start : Option Text) (w w' : W) (items : List Item)
      → pages_from n start w ≡ (ok items, w')
      → Chained n start w items w'
  unfolding read_pages
  read_pages-Chained zero start w w' items h = ground arith
  read_pages-Chained (suc n) start w w' items h =
      follow-Chained n start w (fetch start w).1 w' (fetch start w).0 items
        (page_of start (fetch start w).0) refl refl
        (λ id rest later. read_pages-Chained n (some id) (fetch start w).1 w' rest later) h

  -- A chain that is short enough is read.
  Chain-read :
      (n : ℕ) {start : Option Text} {w w' : W} {pages : List (List Item)}
      → Chain start w pages w'
      → length pages ≤ n
      → pages_from n start w ≡ (ok (concat pages), w')
  unfolding read_pages read_page
  Chain-read zero (last_page response page fetched read stops) few = absurd (omega arith)
  Chain-read (suc n) (last_page response page fetched read stops) few =
      rw (fetched, read, stops, append_nil) refl
  Chain-read zero (more_pages response page id fetched read more onward chain) few =
      absurd (omega arith)
  Chain-read (suc n) (more_pages response page id fetched read more onward chain) few =
      rw (fetched, read, more, onward, Chain-read n chain (omega arith)) refl

  complete_read-eq-ok :
      (r : Checked (List Item) × W) (items : List Item) (w' : W)
      → complete_read language resolve decode context_id now fetch r
        ≡ (ok (record { complete = true; items = items }), w')
      → r ≡ (ok items, w')
  complete_read-eq-ok (ok own, w) items w' h = ground arith
  complete_read-eq-ok (err e, w) items w' h = ground arith

  -- The read of a context succeeds exactly when the context is 2 or 16 and Steam gives a chain of at
  -- most twenty pages, from the start of the inventory to a page that says that no more follow; and
  -- then it has the items of all of these pages, in order.
  pub read_inventory_context-Chain :
      (w w' : W) (items : List Item)
      → (read_inventory_context language resolve decode context_id now fetch w
          ≡ (ok (record { complete = true; items = items }), w'))
        ↔ (((context_id === codes "2" || context_id === codes "16") ≡ true)
            × ((pages : List (List Item)) × Chain none w pages w'
                × (length pages ≤ 20)
                × (concat pages ≡ items)))
  unfolding read_inventory_context
  read_inventory_context-Chain w w' items = (forward, backward)
    where
      forward :
          (read_inventory_context language resolve decode context_id now fetch w
            ≡ (ok (record { complete = true; items = items }), w'))
          → ((context_id === codes "2" || context_id === codes "16") ≡ true)
            × Chained 20 none w items w'
      forward h = elim (Bool-cases (context_id === codes "2" || context_id === codes "16")) [
        | inl valid ↦ (
          valid,
          read_pages-Chained 20 none w w' items
              (complete_read-eq-ok (pages_from 20 none w) items w' (rw valid at h)),
        )
        | inr invalid ↦ ground arith
      ]

      backward :
          ((context_id === codes "2" || context_id === codes "16") ≡ true)
            × Chained 20 none w items w'
          → (read_inventory_context language resolve decode context_id now fetch w
              ≡ (ok (record { complete = true; items = items }), w'))
      backward (valid, (pages, chain, few, joined)) =
          rw (valid, Chain-read 20 chain few, joined) refl
