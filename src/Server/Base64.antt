-- ===== src/Server/Base64.antt =====
-- `base64.RawURLEncoding`, the URL alphabet without padding, as internal/server/events.go uses it
-- for cursors. `DecodeString` skips line breaks and leaves unread the bits of the last character
-- that no byte takes.
pub mod Decoding
use ethindexer.Common.{
  ℕ, ◌+◌, ◌-◌, ◌*◌, ◌/◌, ◌%◌, List, [], ◌∷◌, Option, none, some, Bool, ◌||◌, ◌&&◌, ◌==◌, ltb, leb,
  if◌then◌else◌, Bytes,
}
use ethindexer.Server.Numbers.{Text}

-- `ABC…Zabc…z0…9-_` at an index below 64.
abbrev pub symbol : ℕ → ℕ
symbol k =
    if ltb k 26
    then 65 + k
    else (if ltb k 52 then 71 + k else (if ltb k 62 then k - 4 else (if k == 62 then 45 else 95)))

abbrev pub between : ℕ → ℕ → ℕ → Bool
between low high character = leb low character && leb character high

-- The index of a character of the alphabet.
abbrev pub index_of : ℕ → Option ℕ
index_of character =
    if between 65 90 character
    then some (character - 65)
    else (if between 97 122 character
        then some (character - 71)
        else (if between 48 57 character
            then some (character + 4)
            else (if character == 45
                then some 62
                else (if character == 95 then some 63 else none))))

-- The characters of whole and of partial groups of three bytes, as indices.
unfoldable pub split : Bytes → List ℕ
split [] = []
split (a ∷ []) = (a / 4) ∷ (a % 4 * 16) ∷ []
split (a ∷ b ∷ []) = (a / 4) ∷ (a % 4 * 16 + b / 16) ∷ (b % 16 * 4) ∷ []
split (a ∷ b ∷ c ∷ bytes) =
    (a / 4) ∷ (a % 4 * 16 + b / 16) ∷ (b % 16 * 4 + c / 64) ∷ (c % 64) ∷ split bytes

unfoldable pub symbols : List ℕ → Text
symbols [] = []
symbols (k ∷ ks) = symbol k ∷ symbols ks

abbrev pub encode_to_string : Bytes → Text
encode_to_string bytes = symbols (split bytes)

abbrev pub is_line_break : ℕ → Bool
is_line_break character = character == 10 || character == 13

-- The indices of the characters; none at a character outside the alphabet.
unfoldable pub indices : Text → Option (List ℕ)
indices [] = some []
indices (character ∷ text) =
    let rest = indices text in
    if is_line_break character then rest else elim (index_of character) [
      | none ↦ none
      | some k ↦ elim rest [ none ↦ none | some ks ↦ some (k ∷ ks) ]
    ]

abbrev consed : ℕ → ℕ → ℕ → Option Bytes → Option Bytes
consed a b c none = none
consed a b c (some bytes) = some (a ∷ b ∷ c ∷ bytes)

-- The bytes of groups of four characters; a last group of one character is an error.
unfoldable pub join : List ℕ → Option Bytes
join [] = some []
join (p ∷ []) = none
join (p ∷ q ∷ []) = some ((p * 4 + q / 16) ∷ [])
join (p ∷ q ∷ r ∷ []) = some ((p * 4 + q / 16) ∷ (q % 16 * 16 + r / 4) ∷ [])
join (p ∷ q ∷ r ∷ s ∷ ks) = consed (p * 4 + q / 16) (q % 16 * 16 + r / 4) (r % 4 * 64 + s) (join ks)

-- none is a `CorruptInputError`.
unfoldable pub decode_string : Text → Option Bytes
decode_string text = elim (indices text) [ none ↦ none | some ks ↦ join ks ]
