-- ===== src/Server/Responses.antt =====
-- The bodies of the HTTP API: the response types of internal/server and the functions that build them.
use ethindexer.Common.{ℕ, List, map, Option, none, some, ℤ}
use ethindexer.Failure.{Result, ok, err, missing_transaction_value}
use ethindexer.Domain.{Time, Address, Event, BlockResult, TransactionResult, EventPage, BigInt}
use ethindexer.Server.Numbers.{Text, big_int_string, optional_big_int_string}
use ethindexer.Server.Cursor.{encode_event_cursor}
use ethindexer.Server.Hex.{Hex}

pub record BlockResponse : Type 0 where
  pub number : ℕ  -- uint64
  pub hash : Text
  pub parent_hash : Text
  pub timestamp : ℕ  -- uint64
  pub gas_limit : ℕ  -- uint64
  pub gas_used : ℕ  -- uint64
  pub base_fee_per_gas_wei : Option Text
  pub transaction_count : ℤ  -- int
  pub transaction_hashes : List Text
  pub indexed_at : Time

pub record EventResponse : Type 0 where
  pub block_number : ℕ  -- uint64
  pub block_hash : Text
  pub transaction_hash : Text
  pub transaction_index : ℕ  -- uint32
  pub log_index : ℕ  -- uint32
  pub address : Text
  pub topics : List Text
  pub payload : Text  -- the field `Data`

pub record EventPageResponse : Type 0 where
  pub events : List EventResponse
  pub next_cursor : Option Text

pub record TransactionResponse : Type 0 where
  pub hash : Text
  pub block_number : ℕ  -- uint64
  pub block_hash : Text
  pub index : ℕ  -- uint32
  pub kind : ℕ  -- uint8, the field `Type`
  pub nonce : ℕ  -- uint64
  pub sender : Text
  pub recipient : Option Text
  pub value_wei : Text
  pub gas_limit : ℕ  -- uint64
  pub gas_price_wei : Option Text
  pub max_fee_per_gas_wei : Option Text
  pub max_priority_fee_per_gas_wei : Option Text
  pub input : Text
  pub events : List EventResponse

module _ (hex : Hex) where
  unfoldable pub optional_address_string : Option Address → Option Text
  optional_address_string none = none
  optional_address_string (some address) = some (hex.address_hex address)

  unfoldable pub new_block_response : BlockResult → BlockResponse
  new_block_response result = record {
    number = result.block.number;
    hash = hex.hash_hex result.block.hash;
    parent_hash = hex.hash_hex result.block.parent_hash;
    timestamp = result.block.timestamp;
    gas_limit = result.block.gas_limit;
    gas_used = result.block.gas_used;
    base_fee_per_gas_wei = optional_big_int_string result.block.base_fee_per_gas;
    transaction_count = result.block.transaction_count;
    transaction_hashes = map hex.hash_hex result.transaction_hashes;
    indexed_at = result.block.indexed_at;
  }

  unfoldable pub new_event_response : Event → EventResponse
  new_event_response event = record {
    block_number = event.block_number;
    block_hash = hex.hash_hex event.block_hash;
    transaction_hash = hex.hash_hex event.transaction_hash;
    transaction_index = event.transaction_index;
    log_index = event.log_index;
    address = hex.address_hex event.address;
    topics = map hex.hash_hex event.topics;
    payload = hex.encode event.payload;
  }

  unfoldable pub new_event_page_response : EventPage → EventPageResponse
  new_event_page_response page = record {
    events = map new_event_response page.events;
    next_cursor = elim page.next_cursor [
      | none ↦ none
      | some cursor ↦ some (encode_event_cursor cursor)
    ];
  }

  abbrev with_value : TransactionResult → BigInt → Result TransactionResponse
  with_value result none = err missing_transaction_value
  with_value result (some value) =
      let transaction = result.transaction in
      ok (record {
        hash = hex.hash_hex transaction.hash;
        block_number = transaction.block_number;
        block_hash = hex.hash_hex transaction.block_hash;
        index = transaction.index;
        kind = transaction.kind;
        nonce = transaction.nonce;
        sender = hex.address_hex transaction.sender;
        recipient = optional_address_string transaction.recipient;
        value_wei = big_int_string value;
        gas_limit = transaction.gas_limit;
        gas_price_wei = optional_big_int_string transaction.gas_price;
        max_fee_per_gas_wei = optional_big_int_string transaction.max_fee_per_gas;
        max_priority_fee_per_gas_wei = optional_big_int_string transaction.max_priority_fee_per_gas;
        input = hex.encode transaction.input;
        events = map new_event_response result.events;
      })

  unfoldable pub new_transaction_response : TransactionResult → Result TransactionResponse
  new_transaction_response result = with_value result result.transaction.value
