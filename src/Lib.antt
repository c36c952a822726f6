-- ===== src/Lib.antt =====
-- Verification library of the CSBOARD browser extension.
--
-- The extension reads the user's Steam portfolio and sends it, encrypted, to a gateway, and it lists
-- items on the Steam market. The parts modelled here, and where:
-- * Shared.Result is src/shared/result.ts. Code that throws is modelled by the same type, with `do`
--   for what follows a call that may throw.
-- * Gateway.Error and Gateway.Payload are src/shared/gateway-dto.ts: `visit` is the inner function of
--   assertSafeGatewayPayload, over the values that JavaScript can hand it (a tree: the check for
--   cycles has nothing to find in one), and Gateway.Payload.Size is the length of JSON in bytes.
-- * Gateway.Message has the envelope and the operations of src/shared/gateway-dto.ts, and
--   Gateway.Envelope is assertGatewayEncryptedEnvelope of src/background/gateway-crypto.ts, as the
--   list of its checks in the order of the source.
-- * Outbox is src/background/sync-outbox.ts: Records for what is stored and how it is parsed, Queue
--   for enqueueGatewayEnvelope, getGatewayOutboxStatus and clearGatewayOutbox, Drain for
--   drainGatewayOutbox, and History for sequences of calls. The sender is a parameter with a state of
--   its own, and the clock's readings are arguments. Calls do not overlap.
-- * Market.Fees is src/shared/steam-fees.ts, over the interface Market.Floats of numbers whose
--   operations are monotone, as those of IEEE doubles are.
-- * Market.Approvals is the pair of authorizations of src/shared/market-actions.ts: one model of
--   authorizeSellFromUserGesture and authorizeListingRemovalFromUserGesture, and of the two functions
--   that consume them, with the limits and errors in which they differ as a policy. Its History is any
--   sequence of clicks and writes. Market.Batch is reduceBatchSellState with the classification of
--   errors, and Market.Targets is computeSellTarget, sellTargetFromReceived and summarizeSellTargets.
-- * Market.Gate is gatedWrite of src/shared/market-actions.ts and gated of
--   src/shared/market-orders.ts, which are the same code with two gaps: the requests of a chain, with
--   the times at which they are made, woken and ended.
-- * Market.Orders has the classes of a status, the cooldown, the amounts and the cache of
--   src/shared/market-orders.ts.
-- * Shared.Error is CSBoardError of src/shared/types.ts.
-- * Gateway.Identity has the Steam ids and the pairing codes of src/shared/gateway-dto.ts.
-- * Portfolio is src/shared/portfolio-dto.ts: Records and Json for the types of
--   src/shared/gateway-dto.ts and their JSON, Fields and Checks for assertPortfolioSnapshot, Order and Sort for
--   sortPortfolioSnapshot, Packing for the loop of chunkPortfolioSnapshot over any measure of a group,
--   and Chunks for the rest of it.
-- * Portfolio.Collector is src/background/portfolio-collector.ts: Failure for the classes of errors,
--   Trades for the pages of the trade history, Sync for collectPortfolioSync, with Snapshot for what
--   it makes of the reads. The provider of
--   src/background/steam-read-session-provider.ts is an interface: a record of calls that answer from
--   a state of their own, and may fail at any call.
-- * Controller is src/background/gateway-controller.ts: State has the fields, the local stores and
--   where each handler waits; Pair, Unpair and Sync have the code between two awaits as functions of
--   the state and the reply; and Steps lets any handler go on with any reply. The write of the outbox
--   is a step ahead of the reply to it, and a request leaves when it is issued. A registration that is
--   read may be any, so that the theorems do not rest on the order of the store's transactions.
-- * Client is src/background/gateway-client.ts: Delivery for sendEnvelope, over what the network
--   answers, Discovery for validateDiscoveryDocument, and Config for validateGatewayOrigin and
--   validateRoot; Body has the tests on parsed answers. The header retry-after is what `Number`
--   gives of it. Shared.Millis has delays and times that may have a fraction of a millisecond, as
--   exact decimals: neither the rounding of doubles nor a sender's delay that is not finite is
--   modelled.
-- * Listing is src/background/p2p-listing-client.ts: Parse for what it accepts of the answers and of a
--   request, Request for assertApiBase and the reading of an answer, Prepare for prepare, and Confirm
--   for the two maps with cancel, confirm and performConfirm, cut at their awaits. Its History is any
--   order of calls and replies; a random id may be one that was used before.
-- * External is src/background/external-router.ts: Messages for the shapes, Dispatch for
--   dispatchExternalStatus and dispatchExternalMessage, Listener for the listener of page messages
--   with several dispatches under way, and Internal for dispatchInternalGatewayMessage. The handlers
--   settle in any way.
-- * Session is src/background/steam-read-session-provider.ts: Values for the readers of fields,
--   Items and Assets for descriptions and items, Token for the token in memory and its mints, cut
--   at their awaits, Inventory for readInventoryContext, and Offers for fetchSteamApi,
--   readRecentTrades and readTradeOffers. What `Number`, `String` and `toLowerCase` give of a
--   value, the URL parser and parseSteamAssetProperties are parameters.
-- * Prelude has the shared helpers: Boolean tests, lists, integers, texts as lists of UTF-16 code
--   units, and the regular expressions. Tests has concrete inputs.
--
-- The parts meet where the code calls across files: the outbox checks each envelope with
-- Gateway.Envelope, which scans its clear part with Gateway.Payload; a portfolio is scanned by it
-- too; the collector checks and cuts what it read with Portfolio; and the controller shows failures as
-- the collector's redaction does. The controller is modelled over any chunks, envelopes and outbox.
-- External reads pairing codes with Gateway.Identity; Session's reads are what the collector's provider
-- interface stands for.
--
-- Bounds: the trade history has the ten pages of the source as fuel, the inventory its twenty. The
-- other loops are structural recursion on lists and values. The walk of receivedForBuyerPays runs on
-- the 1000 rounds that the source allows, and its theorem asks that the target lies within that many
-- minor units of the estimate. The matcher of regular expressions gives a repetition as many rounds
-- as the text is long, since a round that takes nothing need not be repeated.
--
-- Numbers that the code requires to be safe integers are integers. An envelope has exactly the keys
-- of its interface. Not modelled: the browser's storage, network, cryptography and user interface,
-- the paths and counts in the context of an error of a check, and the other background services,
-- which use these parts.
pub mod Prelude
pub mod Shared
pub mod Gateway
pub mod Outbox
pub mod Portfolio
pub mod Controller
pub mod Client
pub mod Listing
pub mod External
pub mod Session
pub mod Market
pub mod Tests
