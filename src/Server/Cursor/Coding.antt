-- ===== src/Server/Cursor/Coding.antt =====
-- That the texts `parseEventCursor` accepts are those `encodeEventCursor` writes.
use ethindexer.Common.{
  ◌<◌, ◌≡◌, refl, sym, ◌∙◌, ap, List, [], ◌∷◌, ◌++◌, some, true, false, subst, arith, length, take,
  drop, take-append, drop-append, to_be, from_be-to_be, length-to_be, length-append, length-drop,
  length-take_exact, All-take, All-drop, All-append, to_be-from_be, to_be-IsByte, same_bytes,
  same_bytes_refl, same_bytes→eq, from_be-capacity, Bytes, IsByte, All, subst, take-drop, drop-drop,
  Option-cases, inl, inr,
}
use ethindexer.Failure.{ok}
use ethindexer.Domain.{EventCursor, uint256_size, uint64_size, uint32_size}
use ethindexer.Server.Numbers.{Text, is_empty}
use ethindexer.Server.Base64.{encode_to_string, decode_string, split, symbols}
use ethindexer.Server.Base64.Decoding.{decode_string-encode_to_string, decode_string-IsByte}
use ethindexer.Server.Cursor.{
  cursor_bytes, encode_event_cursor, cursor_of_bytes, parse_event_cursor,
}

-- The fields hold what their Go types hold.
pub record FitsCursor (cursor : EventCursor) : Type 0 where
  pub block_number : cursor.block_number < uint64_size
  pub block_hash : cursor.block_hash < uint256_size
  pub log_index : cursor.log_index < uint32_size

-- A list of 44 is its three slices.
slices : (bytes : Bytes) → bytes ≡ take 8 bytes ++ (take 32 (drop 8 bytes) ++ drop 40 bytes)
slices bytes = ground (arith, take-drop 8 bytes, take-drop 32 (drop 8 bytes), drop-drop 8 32 bytes)

cursor_of_bytes-cursor_bytes :
    (cursor : EventCursor) → FitsCursor cursor → cursor_of_bytes (cursor_bytes cursor) ≡ cursor
unfolding cursor_of_bytes cursor_bytes
cursor_of_bytes-cursor_bytes cursor fits =
    let number = to_be 8 cursor.block_number in
    let hash = to_be 32 cursor.block_hash in
    let log = to_be 4 cursor.log_index in
    ground (
      arith,
      take-append 8 number (hash ++ log) (length-to_be 8 cursor.block_number),
      drop-append 8 number (hash ++ log) (length-to_be 8 cursor.block_number),
      take-append 32 hash log (length-to_be 32 cursor.block_hash),
      drop-append 32 hash log (length-to_be 32 cursor.block_hash),
      drop-drop 8 32 (number ++ (hash ++ log)),
      from_be-to_be 8 cursor.block_number fits.block_number,
      from_be-to_be 32 cursor.block_hash fits.block_hash,
      from_be-to_be 4 cursor.log_index fits.log_index,
    )

length-cursor_bytes : (cursor : EventCursor) → length (cursor_bytes cursor) ≡ 44
unfolding cursor_bytes
length-cursor_bytes cursor =
    let number = to_be 8 cursor.block_number in
    let hash = to_be 32 cursor.block_hash in
    let log = to_be 4 cursor.log_index in
    omega (
      arith,
      length-append number (hash ++ log),
      length-append hash log,
      length-to_be 8 cursor.block_number,
      length-to_be 32 cursor.block_hash,
      length-to_be 4 cursor.log_index,
    )

cursor_bytes-IsByte : (cursor : EventCursor) → All IsByte (cursor_bytes cursor)
unfolding cursor_bytes
cursor_bytes-IsByte cursor =
    let hash = to_be 32 cursor.block_hash in
    let log = to_be 4 cursor.log_index in
    All-append IsByte (to_be 8 cursor.block_number) (hash ++ log)
      (to_be-IsByte 8 cursor.block_number)
      (All-append IsByte hash log (to_be-IsByte 32 cursor.block_hash)
        (to_be-IsByte 4 cursor.log_index))

encode_some : (bytes : Bytes) → length bytes ≡ 44 → is_empty (encode_to_string bytes) ≡ false
unfolding split symbols
encode_some [] h = absurd (ground (arith, h))
encode_some (a ∷ []) h = refl
encode_some (a ∷ b ∷ []) h = refl
encode_some (a ∷ b ∷ c ∷ bytes) h = refl

-- A cursor whose fields fit their types is read back from the text that `encodeEventCursor` writes.
pub parse_event_cursor-encode_event_cursor :
    (cursor : EventCursor)
    → FitsCursor cursor
    → parse_event_cursor (some (encode_event_cursor cursor ∷ [])) ≡ ok (some cursor)
unfolding parse_event_cursor encode_event_cursor
parse_event_cursor-encode_event_cursor cursor fits = ground (
  arith,
  encode_some (cursor_bytes cursor) (length-cursor_bytes cursor),
  decode_string-encode_to_string (cursor_bytes cursor) (cursor_bytes-IsByte cursor),
  length-cursor_bytes cursor,
  same_bytes_refl (encode_to_string (cursor_bytes cursor)),
  cursor_of_bytes-cursor_bytes cursor fits,
)

module _ (bytes : Bytes) (size : length bytes ≡ 44) (are_bytes : All IsByte bytes) where
  cursor_bytes-cursor_of_bytes : cursor_bytes (cursor_of_bytes bytes) ≡ bytes
  unfolding cursor_bytes cursor_of_bytes
  cursor_bytes-cursor_of_bytes = ground (
    arith,
    size,
    slices bytes,
    length-drop 8 bytes,
    length-drop 40 bytes,
    length-take_exact 8 bytes (omega (arith, size)),
    length-take_exact 32 (drop 8 bytes) (omega (arith, size, length-drop 8 bytes)),
    to_be-from_be (take 8 bytes) (All-take IsByte 8 bytes are_bytes),
    to_be-from_be (take 32 (drop 8 bytes))
        (All-take IsByte 32 (drop 8 bytes) (All-drop IsByte 8 bytes are_bytes)),
    to_be-from_be (drop 40 bytes) (All-drop IsByte 40 bytes are_bytes),
  )

  cursor_of_bytes-FitsCursor : FitsCursor (cursor_of_bytes bytes)
  unfolding cursor_of_bytes
  cursor_of_bytes-FitsCursor = record {
    block_number = ground (
      arith,
      from_be-capacity (take 8 bytes) (All-take IsByte 8 bytes are_bytes),
      length-take_exact 8 bytes (omega (arith, size)),
    );
    block_hash = ground (
      arith,
      from_be-capacity (take 32 (drop 8 bytes))
          (All-take IsByte 32 (drop 8 bytes) (All-drop IsByte 8 bytes are_bytes)),
      length-take_exact 32 (drop 8 bytes) (omega (arith, size, length-drop 8 bytes)),
    );
    log_index = ground (
      arith,
      size,
      from_be-capacity (drop 40 bytes) (All-drop IsByte 40 bytes are_bytes),
      length-drop 40 bytes,
    );
  }

  cursor_of_bytes-IsCoded :
      (text : Text)
      → encode_to_string bytes ≡ text
      → FitsCursor (cursor_of_bytes bytes) × (text ≡ encode_event_cursor (cursor_of_bytes bytes))
  unfolding encode_event_cursor
  cursor_of_bytes-IsCoded text same = (
    cursor_of_bytes-FitsCursor,
    sym same ∙ ap encode_to_string (sym cursor_bytes-cursor_of_bytes),
  )

-- `parseEventCursor` accepts no other text for a cursor than the one that `encodeEventCursor` writes
-- for it, and no parameter that is given twice; the fields of an accepted cursor fit their types.
pub parse_event_cursor-FitsCursor :
    (values : List Text) (cursor : EventCursor)
    → parse_event_cursor (some values) ≡ ok (some cursor)
    → FitsCursor cursor × (values ≡ encode_event_cursor cursor ∷ [])
unfolding parse_event_cursor
parse_event_cursor-FitsCursor [] cursor h = absurd (ground (arith, h))
parse_event_cursor-FitsCursor (text ∷ other ∷ values) cursor h = absurd (ground (arith, h))
parse_event_cursor-FitsCursor (text ∷ []) cursor h = elim (Option-cases (decode_string text)) [
  | inl corrupt ↦ absurd (ground (arith, h, corrupt))
  | inr (bytes, decoded) ↦
      let size : length bytes ≡ 44 = ground (arith, h, decoded) in
      let same : same_bytes (encode_to_string bytes) text ≡ true = ground (arith, h, decoded) in
      let (fits, coded) =
        cursor_of_bytes-IsCoded bytes size (decode_string-IsByte text bytes decoded) text
          (same_bytes→eq (encode_to_string bytes) text same) in
      let is : cursor_of_bytes bytes ≡ cursor = ground (arith, h, decoded) in
      (subst FitsCursor is fits, ground (arith, coded, is))
]
