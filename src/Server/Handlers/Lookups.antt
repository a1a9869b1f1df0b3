-- ===== src/Server/Handlers/Lookups.antt =====
-- The block and transaction endpoints on the in-memory store.
use ethindexer.Common.{
  ℕ, zero, suc, ℤ, ◌<◌, ◌≡◌, refl, List, [], ◌∷◌, Option, none, some, ltb, arith, if◌then◌else◌,
  get_elem?, map, lookup, keys, Distinct, Option-cases, inl, inr,
}
use ethindexer.Failure.{ok, matches, Result-cases}
use ethindexer.Domain.{
  Hash, Transaction, BlockBundle, BlockResult, TransactionResult, uint256_size, uint64_size,
}
use ethindexer.Store.Validate.{BundleMap}
use ethindexer.Store.Validate.Transactions.{hashes}
use ethindexer.Store.Canonical.Chain.{IsCanonical}
use ethindexer.Store.Memory.{Memory}
use ethindexer.Store.Memory.Clone.{clone_block_lem}
use ethindexer.Store.Memory.Lookup.{transaction_by_hash_given}
use ethindexer.Store.Memory.Queries.{transaction_events}
use ethindexer.Service.{Queries, query_service, translate_store_error}
use ethindexer.Service.Backed.{memory_query_store}
use ethindexer.Server.Numbers.{Text, decimal, big_int_string, optional_big_int_string}
use ethindexer.Server.Numbers.Decimal.{decimal_number, parse_block_number_lem}
use ethindexer.Server.Numbers.Laws.{parse_block_number-decimal}
use ethindexer.Server.Hex.{Hex, IsHex, parse_transaction_hash}
use ethindexer.Server.Responses.{
  BlockResponse, TransactionResponse, new_block_response, new_transaction_response,
}
use ethindexer.Server.Handlers.{
  Response, respond, write_error, invalid_block_number, block_not_found, block_body,
  transaction_body, block_by_number, transaction_by_hash,
}

-- The service on the in-memory store, in a request whose context is alive.
abbrev pub memory_service : Memory → Queries
memory_service m = query_service (memory_query_store none m)

abbrev pub result_of : BlockBundle → BlockResult
result_of bundle = record { block = bundle.block; transaction_hashes = hashes bundle.transactions }

-- What the API shows of a stored block.
abbrev pub block_shown : Hex → BlockBundle → BlockResponse
block_shown hex bundle = record {
  number = bundle.block.number;
  hash = hex.hash_hex bundle.block.hash;
  parent_hash = hex.hash_hex bundle.block.parent_hash;
  timestamp = bundle.block.timestamp;
  gas_limit = bundle.block.gas_limit;
  gas_used = bundle.block.gas_used;
  base_fee_per_gas_wei = elim bundle.block.base_fee_per_gas [
    | none ↦ none
    | some fee ↦ some (big_int_string fee)
  ];
  transaction_count = bundle.block.transaction_count;
  transaction_hashes = map (λ transaction. hex.hash_hex transaction.hash) bundle.transactions;
  indexed_at = bundle.block.indexed_at;
}

abbrev pub stored_answer : Hex → Option BlockBundle → Response
stored_answer hex none = write_error 404 block_not_found
stored_answer hex (some bundle) = respond 200 (block_body (block_shown hex bundle))

-- The answer for a number that a text spells, if it spells one.
abbrev pub number_answer : Hex → BundleMap → Option ℕ → Response
number_answer hex m none = write_error 400 invalid_block_number
number_answer hex m (some n) =
    if ltb n uint64_size
    then stored_answer hex (lookup n m)
    else write_error 400 invalid_block_number

map-hashes :
    (print : Hash → Text) (ts : List Transaction)
    → map print (hashes ts) ≡ map (λ t. print t.hash) ts
map-hashes print [] = refl
map-hashes print (t ∷ ts) = ground (arith, map-hashes print ts)

new_block_response-shown :
    (hex : Hex) (b : BlockBundle) → new_block_response hex (result_of b) ≡ block_shown hex b
unfolding new_block_response optional_big_int_string
new_block_response-shown hex b = elim (Option-cases b.block.base_fee_per_gas) [
  | inl unpriced ↦ ground (arith, unpriced, map-hashes hex.hash_hex b.transactions)
  | inr (fee, is) ↦ ground (arith, is, map-hashes hex.hash_hex b.transactions)
]

number_served :
    (hex : Hex) (m : Memory) (text : Text) (n : ℕ)
    → decimal_number text ≡ some n
    → block_by_number hex (memory_service m) text ≡ number_answer hex m.bundles (some n)
unfolding block_by_number query_service ethindexer.Store.Memory.Queries.block_by_number
    translate_store_error matches
number_served hex m text n is = elim (Option-cases (lookup n m.bundles)) [
  | inl missing ↦ ground (arith, parse_block_number_lem text, is, missing)
  | inr (b, at) ↦ ground (
    arith,
    parse_block_number_lem text,
    is,
    at,
    clone_block_lem b.block,
    new_block_response-shown hex b,
  )
]

-- The block endpoint answers 400 to every text that spells no uint64 in decimal, 404 to a number at
-- which no block is stored, and else 200 with the fields of the block stored there, each under its
-- own name, and the hashes of its transactions in order.
pub block_by_number_served :
    (hex : Hex) (m : Memory) (text : Text)
    → block_by_number hex (memory_service m) text
      ≡ number_answer hex m.bundles (decimal_number text)
unfolding block_by_number query_service
block_by_number_served hex m text = elim (Option-cases (decimal_number text)) [
  | inl none_spelled ↦ ground (arith, parse_block_number_lem text, none_spelled)
  | inr (n, is) ↦ ground (arith, is, number_served hex m text n is)
]

get_elem?-printed :
    (print : Hash → Text) (ts : List Transaction) (i : ℕ) (t : Transaction)
    → get_elem? ts i ≡ some t
    → get_elem? (map print (hashes ts)) i ≡ some (print t.hash)
get_elem?-printed print [] i t at = absurd (ground (arith, at))
get_elem?-printed print (u ∷ ts) zero t at = ground (arith, at)
get_elem?-printed print (u ∷ ts) (suc i) t at = get_elem?-printed print ts i t at

parse_transaction_hash-hash_hex :
    (hex : Hex) (hash : Hash)
    → IsHex hex
    → hash < uint256_size
    → parse_transaction_hash hex (hex.hash_hex hash) ≡ ok hash
unfolding parse_transaction_hash
parse_transaction_hash-hash_hex hex hash is fits = ground (
  arith,
  is.length-hash_hex hash,
  is.hash_hex_prefix hash,
  is.is_hex_hash-hash_hex hash,
  is.hex_to_hash-hash_hex hash fits,
)

answered :
    (hex : Hex) (m : Memory) (hash : Hash) (result : TransactionResult) (v : ℤ)
    → IsHex hex
    → hash < uint256_size
    → ethindexer.Store.Memory.Queries.transaction_by_hash none hash m.bundles ≡ ok result
    → result.transaction.value ≡ some v
    → (r : TransactionResponse) × (new_transaction_response hex result ≡ ok r)
      × (transaction_by_hash hex (memory_service m) (hex.hash_hex hash)
          ≡ respond 200 (transaction_body r))
unfolding transaction_by_hash query_service new_transaction_response
answered hex m hash result v is fits found valued =
    elim (Result-cases (new_transaction_response hex result)) [
      | inr (e, bad) ↦ absurd (ground (arith, bad, valued))
      | inl (r, good) ↦
          (r, good, ground (arith, parse_transaction_hash-hash_hex hex hash is fits, found, good))
    ]

-- On stored blocks that form a canonical chain: the block endpoint lists each transaction of a stored
-- block at its position, and the transaction endpoint answers the listed hash with 200, that
-- transaction and the events of its block that name it, if the transaction has a value and its hash
-- is one of 32 bytes.
pub transaction_by_hash_linked :
    (hex : Hex) (m : Memory) (n i : ℕ) (b : BlockBundle) (t : Transaction) (v : ℤ)
    → IsHex hex
    → n < uint64_size
    → Distinct (keys m.bundles)
    → IsCanonical m.bundles
    → lookup n m.bundles ≡ some b
    → get_elem? b.transactions i ≡ some t
    → t.hash < uint256_size
    → t.value ≡ some v
    → (page : BlockResponse) × (link : Text) × (r : TransactionResponse) × (block_by_number hex
          (memory_service m)
          (decimal n)
        ≡ respond 200 (block_body page))
      × (get_elem? page.transaction_hashes i ≡ some link)
      × (transaction_by_hash hex (memory_service m) link ≡ respond 200 (transaction_body r))
      × (new_transaction_response hex
            (record { transaction = t; events = transaction_events t.hash b })
          ≡ ok r)
unfolding new_block_response block_by_number query_service
    ethindexer.Store.Memory.Queries.block_by_number
transaction_by_hash_linked hex m n i b t v is small distinct canonical at place fits valued =
    let (r, made, given) =
      answered hex m t.hash (record { transaction = t; events = transaction_events t.hash b }) v is
        fits (transaction_by_hash_given m.bundles n i b t distinct canonical at place) valued in
    (
      new_block_response hex (result_of b),
      hex.hash_hex t.hash,
      r,
      ground (arith, parse_block_number-decimal n small, at, clone_block_lem b.block),
      get_elem?-printed hex.hash_hex b.transactions i t place,
      given,
      made,
    )
