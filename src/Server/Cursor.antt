-- ===== src/Server/Cursor.antt =====
-- `parseEventCursor` and `encodeEventCursor` of internal/server/events.go: a cursor is the URL text
-- of 8 bytes of a block number, 32 of its hash and 4 of a log index.
pub mod Coding
use ethindexer.Common.{
  ℕ, ◌+◌, List, [], ◌∷◌, ◌++◌, Option, none, some, Bool, true, false, not, ◌&&◌, ◌==◌,
  if◌then◌else◌, length, take, drop, to_be, from_be, same_bytes, Bytes,
}
use ethindexer.Failure.{Result, ok, err, ◌>>=◌, ◌>>◌, guard, invalid_event_cursor}
use ethindexer.Domain.{EventCursor, hash_length}
use ethindexer.Server.Numbers.{Text, is_empty}
use ethindexer.Server.Base64.{encode_to_string, decode_string}

abbrev pub event_cursor_encoded_size : ℕ
event_cursor_encoded_size = 8 + hash_length + 4

-- The bytes that `PutUint64`, `copy` and `PutUint32` fill.
unfoldable pub cursor_bytes : EventCursor → Bytes
cursor_bytes cursor =
    to_be 8 cursor.block_number ++ (to_be hash_length cursor.block_hash ++ to_be 4 cursor.log_index)

unfoldable pub encode_event_cursor : EventCursor → Text
encode_event_cursor cursor = encode_to_string (cursor_bytes cursor)

unfoldable pub cursor_of_bytes : Bytes → EventCursor
cursor_of_bytes decoded = record {
  block_number = from_be 0 (take 8 decoded);
  block_hash = from_be 0 (take hash_length (drop 8 decoded));
  log_index = from_be 0 (drop (8 + hash_length) decoded);
}

abbrev decoded_cursor : Text → Option Bytes → Result EventCursor
decoded_cursor text none = err invalid_event_cursor
decoded_cursor text (some decoded) = do
  guard (length decoded == event_cursor_encoded_size) invalid_event_cursor
  guard (same_bytes (encode_to_string decoded) text) invalid_event_cursor
  ok (cursor_of_bytes decoded)

abbrev one_cursor : List Text → Result (Option EventCursor)
one_cursor [] = err invalid_event_cursor
one_cursor (text ∷ []) = do
  guard (not (is_empty text)) invalid_event_cursor
  cursor ← decoded_cursor text (decode_string text)
  ok (some cursor)
one_cursor (text ∷ other ∷ texts) = err invalid_event_cursor

-- The values of the parameter `cursor`, if the query has any.
unfoldable pub parse_event_cursor : Option (List Text) → Result (Option EventCursor)
parse_event_cursor none = ok none
parse_event_cursor (some values) = one_cursor values
