-- ===== src/Store/Memory/Clone.antt =====
-- internal/store/memory.go: the `clone…` functions. On values, without sharing, each is the
-- identity.
use ethindexer.Common.{List, [], ◌∷◌, ◌++◌, Option, none, some, map, ◌≡◌, refl, arith}
use ethindexer.Domain.{Address, BigInt, Block, Transaction, Event, BlockBundle}
use ethindexer.Store.Validate.{BundleMap}

-- `new(big.Int).Set(value)` of a value that is not nil
unfoldable clone_big_int : BigInt → BigInt
clone_big_int none = none
clone_big_int (some value) = some value

unfoldable clone_address : Option Address → Option Address
clone_address none = none
clone_address (some value) = some value

unfoldable pub clone_block : Block → Block
unfolding clone_big_int
clone_block block = record block { base_fee_per_gas = clone_big_int block.base_fee_per_gas }

unfoldable pub clone_transaction : Transaction → Transaction
unfolding clone_big_int clone_address
clone_transaction transaction = record transaction {
  recipient = clone_address transaction.recipient;
  value = clone_big_int transaction.value;
  gas_price = clone_big_int transaction.gas_price;
  max_fee_per_gas = clone_big_int transaction.max_fee_per_gas;
  max_priority_fee_per_gas = clone_big_int transaction.max_priority_fee_per_gas;
  input = [] ++ transaction.input;
}

unfoldable pub clone_event : Event → Event
clone_event event = record event { topics = [] ++ event.topics; payload = [] ++ event.payload }

unfoldable pub clone_bundle : BlockBundle → BlockBundle
unfolding clone_block clone_transaction clone_event
clone_bundle bundle = record {
  block = clone_block bundle.block;
  transactions = map clone_transaction bundle.transactions;
  events = map clone_event bundle.events;
}

unfoldable pub clone_bundles : BundleMap → BundleMap
unfolding clone_bundle
clone_bundles [] = []
clone_bundles ((number, bundle) ∷ source) = (number, clone_bundle bundle) ∷ clone_bundles source

clone_big_int_lem : (value : BigInt) → clone_big_int value ≡ value
unfolding clone_big_int
clone_big_int_lem none = refl
clone_big_int_lem (some value) = refl

clone_address_lem : (value : Option Address) → clone_address value ≡ value
unfolding clone_address
clone_address_lem none = refl
clone_address_lem (some value) = refl

pub clone_block_lem : (block : Block) → clone_block block ≡ block
unfolding clone_block
clone_block_lem block = ground arith

pub clone_transaction_lem :
    (transaction : Transaction) → clone_transaction transaction ≡ transaction
unfolding clone_transaction
clone_transaction_lem transaction = ground arith

pub clone_event_lem : (event : Event) → clone_event event ≡ event
unfolding clone_event
clone_event_lem event = ground arith

map_id {ℓ} : {A : Type ℓ} (f : A → A) → ((a : A) → f a ≡ a) → (xs : List A) → map f xs ≡ xs
map_id f h [] = refl
map_id f h (x ∷ xs) = cc (h x, map_id f h xs)

pub clone_bundle_lem : (bundle : BlockBundle) → clone_bundle bundle ≡ bundle
unfolding clone_bundle
clone_bundle_lem bundle = cc (
  clone_block_lem bundle.block,
  map_id clone_transaction clone_transaction_lem bundle.transactions,
  map_id clone_event clone_event_lem bundle.events,
)

pub clone_bundles_lem : (source : BundleMap) → clone_bundles source ≡ source
unfolding clone_bundles
clone_bundles_lem [] = refl
clone_bundles_lem ((number, bundle) ∷ source) =
    cc (clone_bundle_lem bundle, clone_bundles_lem source)
