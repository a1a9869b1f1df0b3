-- ===== src/Server/Base64/Decoding.antt =====
-- That `DecodeString` reads back what `EncodeToString` writes, and gives bytes.
use ethindexer.Common.{
  ℕ, ◌+◌, ◌*◌, ◌/◌, ◌%◌, ◌<◌, ◌≡◌, refl, List, [], ◌∷◌, some, false, arith, All, Bytes, IsByte,
  subst, Option-cases, inl, inr, Bool-cases,
}
use ethindexer.Server.Numbers.{Text}
use ethindexer.Server.Base64.{
  symbol, index_of, split, symbols, encode_to_string, is_line_break, indices, join, decode_string,
}

abbrev IsIndex : ℕ → Type 0
IsIndex k = k < 64

index_of-symbol : (k : ℕ) → IsIndex k → index_of (symbol k) ≡ some k
index_of-symbol k h = ground (arith, h)

is_line_break-symbol : (k : ℕ) → IsIndex k → is_line_break (symbol k) ≡ false
is_line_break-symbol k h = ground (arith, h)

indices-symbols : (ks : List ℕ) → All IsIndex ks → indices (symbols ks) ≡ some ks
unfolding indices symbols
indices-symbols [] h = refl
indices-symbols (k ∷ ks) (here, rest) =
    ground (arith, index_of-symbol k here, is_line_break-symbol k here, indices-symbols ks rest)

split-IsIndex : (bytes : Bytes) → All IsByte bytes → All IsIndex (split bytes)
unfolding split
split-IsIndex [] h = tt
split-IsIndex (a ∷ []) (i, h) = (omega (arith, i), (omega (arith, i), tt))
split-IsIndex (a ∷ b ∷ []) (i, (j, h)) =
    (omega (arith, i), (omega (arith, i, j), (omega (arith, j), tt)))
split-IsIndex (a ∷ b ∷ c ∷ bytes) (i, (j, (k, h))) = (
  omega (arith, i),
  (omega (arith, i, j), (omega (arith, j, k), (omega arith, split-IsIndex bytes h))),
)

join-split : (bytes : Bytes) → All IsByte bytes → join (split bytes) ≡ some bytes
unfolding split join
join-split [] h = refl
join-split (a ∷ []) (i, h) = ground (arith, i)
join-split (a ∷ b ∷ []) (i, (j, h)) = ground (arith, i, j)
join-split (a ∷ b ∷ c ∷ bytes) (i, (j, (k, h))) = rw (join-split bytes h) (ground (arith, i, j, k))

pub decode_string-encode_to_string :
    (bytes : Bytes) → All IsByte bytes → decode_string (encode_to_string bytes) ≡ some bytes
unfolding decode_string
decode_string-encode_to_string bytes h =
    ground (arith, indices-symbols (split bytes) (split-IsIndex bytes h), join-split bytes h)

index_of-IsIndex : (c k : ℕ) → index_of c ≡ some k → IsIndex k
index_of-IsIndex c k h = ground (arith, h)

indices-IsIndex : (text : Text) (ks : List ℕ) → indices text ≡ some ks → All IsIndex ks
unfolding indices
indices-IsIndex [] [] h = tt
indices-IsIndex [] (k ∷ ks) h = absurd (ground (arith, h))
indices-IsIndex (c ∷ text) ks h = elim (Bool-cases (is_line_break c)) [
  | inl skipped ↦ indices-IsIndex text ks (ground (arith, h, skipped))
  | inr kept ↦ elim (Option-cases (index_of c)) [
    | inl none_found ↦ absurd (ground (arith, h, kept, none_found))
    | inr (i, is) ↦ elim (Option-cases (indices text)) [
      | inl bad ↦ absurd (ground (arith, h, kept, is, bad))
      | inr (rest, good) ↦
          subst (All IsIndex) {x = i ∷ rest} (ground (arith, h, kept, is, good))
            (index_of-IsIndex c i is, indices-IsIndex text rest good)
    ]
  ]
]

join-IsByte :
    (ks : List ℕ) (bytes : Bytes) → All IsIndex ks → join ks ≡ some bytes → All IsByte bytes
unfolding join
join-IsByte [] bytes h is = subst (All IsByte) {x = []} (ground (arith, is)) tt
join-IsByte (p ∷ []) bytes h is = absurd (ground (arith, is))
join-IsByte (p ∷ q ∷ []) bytes (i, (j, h)) is =
    subst (All IsByte) {x = (p * 4 + q / 16) ∷ []} (ground (arith, is)) (omega (arith, i, j), tt)
join-IsByte (p ∷ q ∷ r ∷ []) bytes (i, (j, (k, h))) is =
    subst (All IsByte) {x = (p * 4 + q / 16) ∷ (q % 16 * 16 + r / 4) ∷ []} (ground (arith, is))
      (omega (arith, i, j), (omega (arith, j, k), tt))
join-IsByte (p ∷ q ∷ r ∷ s ∷ ks) bytes (i, (j, (k, (l, h)))) is = elim (Option-cases (join ks)) [
  | inl bad ↦ absurd (ground (arith, is, bad))
  | inr (rest, good) ↦
      subst (All IsByte) {x = (p * 4 + q / 16) ∷ (q % 16 * 16 + r / 4) ∷ (r % 4 * 64 + s) ∷ rest}
        (ground (arith, is, good))
        (
          omega (arith, i, j),
          (omega (arith, j, k), (omega (arith, k, l), join-IsByte ks rest h good)),
        )
]

pub decode_string-IsByte :
    (text : Text) (bytes : Bytes) → decode_string text ≡ some bytes → All IsByte bytes
unfolding decode_string
decode_string-IsByte text bytes h = elim (Option-cases (indices text)) [
  | inl bad ↦ absurd (ground (arith, h, bad))
  | inr (ks, good) ↦ join-IsByte ks bytes (indices-IsIndex text ks good) (ground (arith, h, good))
]
