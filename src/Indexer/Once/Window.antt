-- ===== src/Indexer/Once/Window.antt =====
-- `SyncOnce` over the in-memory store: what the store holds after a synchronization that succeeds.
use ethindexer.Common.{
  ℕ, ◌+◌, ◌-◌, ◌≤◌, ◌<◌, ◌≡◌, inl, inr, none, some, true, leb, ltb, if◌then◌else◌, arith, ◌∙◌, sym,
  ap, length, last_or, get_elem?, get_elem?_last, get_elem?_of_le, leb→le, lookup, is_some,
  Bool-cases, Option-cases,
}
use ethindexer.Failure.{ok, Result-cases}
use ethindexer.Domain.{Time, BlockBundle, ChainTip, CanonicalUpdate, uint64_size, max_block_window}
use ethindexer.Ethereum.{Reader}
use ethindexer.Store.{IndexStore}
use ethindexer.Store.Validate.{zero_bundle}
use ethindexer.Store.Memory.{Memory, canonical_tip, apply_canonical_update}
use ethindexer.Store.Memory.Interface.{Readings, memory_store, canonical_tip_alive}
use ethindexer.Store.Memory.Tip.{canonical_tip-highest, canonical_tip-eq-some}
use ethindexer.Store.Memory.Update.{IsMap, lookup-apply, apply-IsMap, apply-validated}
use ethindexer.Store.Canonical.Chain.{IsCanonical, validate-IsCanonical}
use ethindexer.Indexer.Syncer.{Config, RangeFetcher, Syncer, SyncResult}
use ethindexer.Indexer.Syncer.Window.{window_start_exact}
use ethindexer.Indexer.Plan.Bounds.{IsSound, replacement_start-IsSound}
use ethindexer.Indexer.Once.{prepare, sync_with, sync_given, sync_once, validate_sync_once_config}
use ethindexer.Indexer.Once.Retained.{IsPrepared, prepare-IsPrepared}

-- The store is exactly a window that ends at the head: its tip is the head, nothing stands outside
-- the range, and the blocks form one chain.
pub record IsWindow (from : ℕ) (head : ChainTip) (m : Memory) : Type 0 where
  pub tip : canonical_tip none m ≡ ok (some head)
  pub in_range : (n : ℕ) → is_some (lookup n m.bundles) ≡ true → (from ≤ n) × (n ≤ head.number)
  pub is_map : IsMap m
  pub canonical : IsCanonical m.bundles

module _ {S : Type 0} (config : Config) (now : Time) (fetcher : RangeFetcher) (chain : Reader)
    (store : IndexStore S) (state : S) (result : SyncResult)
    (synced : (sync_with config now fetcher chain store state).1 ≡ ok result) where
  -- A synchronization that succeeds has prepared and written an update.
  sync_with-eq-ok :
      (update : CanonicalUpdate) × (prepare config now fetcher chain store state
        ≡ ok (update, result))
      × ((store.apply_canonical_update update state).1 ≡ none)
      × ((sync_with config now fetcher chain store state).0
          ≡ (store.apply_canonical_update update state).0)
  unfolding sync_with
  sync_with-eq-ok = elim (Result-cases (prepare config now fetcher chain store state)) [
    | inl ((update, r), e) ↦ (update, ground arith, ground arith, ground arith)
    | inr (x, e) ↦ absurd (ground arith)
  ]

module _ (config : Config) (chain : Reader) (ctx : Readings) (m : Memory) (update : CanonicalUpdate)
    (result : SyncResult) (prepared : IsPrepared config chain (memory_store ctx) m update result)
    (positive : 1 ≤ config.block_window) (bounded : config.block_window ≤ max_block_window)
    (applied : (apply_canonical_update ctx.at_apply update m).1 ≡ none) where
  abbrev pub after : Memory
  after = (apply_canonical_update ctx.at_apply update m).0

  open prepared use {plan, small, retains, window, stored, planned, replaces, fetched}

  window_bounds :
      (update.retain_from ≤ result.head.number)
      × (result.head.number - update.retain_from + 1 ≤ config.block_window)
  window_bounds =
      let exact =
        window_start_exact result.head.number config.block_window small positive bounded in
      (rw retains exact.0, rw retains exact.1)

  sound : IsSound (memory_store ctx) m chain result.head result.stored_tip update.retain_from plan
  sound =
      replacement_start-IsSound (memory_store ctx) m chain result.head result.stored_tip
        update.retain_from plan window_bounds.0 small planned

  fits : update.replace_from < uint64_size
  fits = rw replaces sound.fits

  stored_after :
      (n : ℕ)
      → lookup n after.bundles ≡ (
          if ltb n update.retain_from
          then none
          else (if ltb n update.replace_from
              then lookup n m.bundles
              else get_elem? update.blocks (n - update.replace_from)))
  stored_after n = lookup-apply ctx.at_apply update m fits applied n

  size : length update.blocks ≡ result.head.number + 1 - update.replace_from
  size = rw replaces fetched.size

  after_in_range :
      (n : ℕ)
      → is_some (lookup n after.bundles) ≡ true
      → (update.retain_from ≤ n) × (n ≤ result.head.number)
  after_in_range n h = ground (
    arith,
    stored_after n,
    size,
    sound.up_to_head,
    replaces,
    get_elem?_of_le update.blocks (n - update.replace_from),
  )

  -- The head is stored, with the hash that was selected.
  head_stored :
      (b : BlockBundle) × (lookup result.head.number after.bundles ≡ some b)
      × (b.block.hash ≡ result.head.hash)
  head_stored = elim (Bool-cases (leb update.replace_from result.head.number)) [
    | inl fetches ↦ (
      last_or zero_bundle update.blocks,
      ground (
        arith,
        stored_after result.head.number,
        window_bounds.0,
        get_elem?_last zero_bundle update.blocks (result.head.number - update.replace_from)
            (omega (arith, size, leb→le update.replace_from result.head.number fetches)),
      ),
      fetched.ends (ground (arith, replaces)),
    )
    | inr nothing ↦
        let same : result.stored_tip ≡ some result.head =
          sound.current_tip (ground (arith, sound.up_to_head, replaces)) in
        let (b, found, agrees, _) =
          canonical_tip-eq-some m result.head
            (canonical_tip_alive ctx.at_tip m (some result.head) (rw same at stored)) in
        (b, ground (arith, stored_after result.head.number, window_bounds.0), sym agrees)
  ]

  pub after-IsWindow : IsMap m → IsWindow update.retain_from result.head after
  after-IsWindow distinct =
      let (b, found, agrees) = head_stored in
      let map_after = apply-IsMap ctx.at_apply update m fits applied distinct in
      record {
        tip =
            canonical_tip-highest after result.head.number b found (λ k h. (after_in_range k h).1)
            ∙ ap (λ (h : ℕ). ok (some (record { number = result.head.number; hash = h }))) agrees;
        in_range = after_in_range;
        is_map = map_after;
        canonical =
            validate-IsCanonical after.bundles map_after
              (apply-validated ctx.at_apply update m fits applied);
      }

-- The window that a configuration asks for.
abbrev pub IsWindowSize : Config → Type 0
IsWindowSize config = (1 ≤ config.block_window) × (config.block_window ≤ max_block_window)

module _ {S : Type 0} (s : Syncer S) (store : IndexStore S) (state : S) (result : SyncResult)
    (is_store : s.store ≡ some store) (synced : (sync_once s state).1 ≡ ok result) where
  -- A synchronization that succeeds has a valid window and its dependencies.
  pub sync_once-eq-ok :
      IsWindowSize s.config
      × ((fetcher : RangeFetcher) × (chain : Reader) × ((sync_with s.config s.now fetcher chain
              store state).1
            ≡ ok result)
          × ((sync_once s state).0 ≡ (sync_with s.config s.now fetcher chain store state).0))
  unfolding sync_once sync_given validate_sync_once_config
  sync_once-eq-ok = elim (Option-cases s.fetcher) [
    | inl missing ↦ absurd (ground arith)
    | inr (fetcher, is_fetcher) ↦ elim (Option-cases s.chain) [
      | inl missing ↦ absurd (ground arith)
      | inr (chain, is_chain) ↦
          ((ground arith, ground arith), (fetcher, chain, ground arith, ground arith))
    ]
  ]

-- On an in-memory store that holds each number once, a synchronization that succeeds leaves
-- exactly a window: the tip is the head that was selected, no block lies outside the range from
-- `FromBlock` to the head, that range is no longer than the configured window, and the stored
-- blocks form one canonical chain.
pub sync_once-IsWindow :
    (s : Syncer Memory) (ctx : Readings) (m : Memory) (result : SyncResult)
    → s.store ≡ some (memory_store ctx)
    → IsMap m
    → (sync_once s m).1 ≡ ok result
    → IsWindow result.from_block result.head (sync_once s m).0
      × (result.from_block ≤ result.head.number)
      × (result.head.number - result.from_block + 1 ≤ s.config.block_window)
sync_once-IsWindow s ctx m result is_store distinct synced =
    let (sized, (fetcher, chain, done, state)) =
      sync_once-eq-ok s (memory_store ctx) m result is_store synced in
    let (update, prepared, applied, written) =
      sync_with-eq-ok s.config s.now fetcher chain (memory_store ctx) m result done in
    let parts =
      prepare-IsPrepared s.config s.now fetcher chain (memory_store ctx) m update result prepared in
    let bounds = window_bounds s.config chain ctx m update result parts sized.0 sized.1 applied in
    let left =
      after-IsWindow s.config chain ctx m update result parts sized.0 sized.1 applied distinct in
    (rw (state, written, parts.window) left, rw parts.window bounds.0, rw parts.window bounds.1)
