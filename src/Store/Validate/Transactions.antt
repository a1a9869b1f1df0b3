-- ===== src/Store/Validate/Transactions.antt =====
-- What the transaction loop of `validateCanonicalBundles` establishes.
use ethindexer.Common.{
  ℕ, zero, suc, ◌+◌, ◌-◌, ◌≤◌, ◌≡◌, List, [], ◌∷◌, some, arith, true, false, ◌||◌, ◌⊎◌, inl, inr,
  get_elem?, get_elem?-cons, length, lookup, elem, Distinct, ◌==◌, Bool-cases,
}
use ethindexer.Failure.{ok}
use ethindexer.Domain.{Hash, Transaction, uint32_size}
use ethindexer.Store.Validate.{check_transactions}

-- The hashes of a block's transactions, in order.
abbrev pub hashes : List Transaction → List Hash
hashes [] = []
hashes (transaction ∷ rest) = transaction.hash ∷ hashes rest

-- The bounds on an optional position: it is in the list, from `index` on.
abbrev pub IsPlacedAt : ℕ → List Transaction → Hash → ℕ → Type 0
IsPlacedAt index transactions a position =
    (t : Transaction) × (get_elem? transactions (position - index) ≡ some t)
    × (t.hash ≡ a)
    × (index ≤ position)

module _ (number : ℕ) (hash : Hash) where
  -- Each transaction names its block and its place.
  pub transactions_placed :
      (index : ℕ) (transactions : List Transaction) (seen : List Hash) (positions : List (Hash × ℕ))
      (found : List Hash × List (Hash × ℕ)) (i : ℕ) (t : Transaction)
      → check_transactions number hash index transactions seen positions ≡ ok found
      → index + length transactions ≤ uint32_size
      → get_elem? transactions i ≡ some t
      → (t.block_number ≡ number) × (t.block_hash ≡ hash) × (t.index ≡ index + i)
  unfolding check_transactions
  transactions_placed index [] seen positions found i t h fits e = cc
  transactions_placed index (first ∷ rest) seen positions found zero t h fits e = ground arith
  transactions_placed index (first ∷ rest) seen positions found (suc i) t h fits e = ground (
    arith,
    transactions_placed (suc index) rest (first.hash ∷ seen) ((first.hash, first.index) ∷ positions)
        found i t,
  )

  -- The hashes seen grow by those of the block.
  pub transactions_seen :
      (index : ℕ) (transactions : List Transaction) (seen : List Hash) (positions : List (Hash × ℕ))
      (found : List Hash × List (Hash × ℕ)) (a : Hash)
      → check_transactions number hash index transactions seen positions ≡ ok found
      → elem a found.0 ≡ (elem a seen || elem a (hashes transactions))
  unfolding check_transactions
  transactions_seen index [] seen positions found a h = ground arith
  transactions_seen index (first ∷ rest) seen positions found a h = ground (
    arith,
    transactions_seen (suc index) rest (first.hash ∷ seen) ((first.hash, first.index) ∷ positions)
        found a,
  )

  -- No hash of the block was seen before.
  pub transactions_fresh :
      (index : ℕ) (transactions : List Transaction) (seen : List Hash) (positions : List (Hash × ℕ))
      (found : List Hash × List (Hash × ℕ)) (a : Hash)
      → check_transactions number hash index transactions seen positions ≡ ok found
      → elem a (hashes transactions) ≡ true
      → elem a seen ≡ false
  unfolding check_transactions
  transactions_fresh index [] seen positions found a h e = cc
  transactions_fresh index (first ∷ rest) seen positions found a h e = ground (
    arith,
    transactions_fresh (suc index) rest (first.hash ∷ seen) ((first.hash, first.index) ∷ positions)
        found a,
  )

  -- No hash stands twice in the block.
  pub transactions-Distinct :
      (index : ℕ) (transactions : List Transaction) (seen : List Hash) (positions : List (Hash × ℕ))
      (found : List Hash × List (Hash × ℕ))
      → check_transactions number hash index transactions seen positions ≡ ok found
      → Distinct (hashes transactions)
  unfolding check_transactions
  transactions-Distinct index [] seen positions found h = tt
  transactions-Distinct index (first ∷ rest) seen positions found h = ground (
    arith,
    transactions_fresh (suc index) rest (first.hash ∷ seen) ((first.hash, first.index) ∷ positions)
        found first.hash,
    transactions-Distinct (suc index) rest (first.hash ∷ seen)
        ((first.hash, first.index) ∷ positions) found,
  )

  -- The map of positions finds a transaction of the block where it says.
  pub transactions_positions :
      (index : ℕ) (transactions : List Transaction) (seen : List Hash) (positions : List (Hash × ℕ))
      (found : List Hash × List (Hash × ℕ)) (a : Hash) (position : ℕ)
      → check_transactions number hash index transactions seen positions ≡ ok found
      → index + length transactions ≤ uint32_size
      → lookup a found.1 ≡ some position
      → (lookup a positions ≡ some position) ⊎ IsPlacedAt index transactions a position
  unfolding check_transactions
  transactions_positions index [] seen positions found a position h fits e = ground arith
  transactions_positions index (first ∷ rest) seen positions found a position h fits e = step (
      transactions_positions (suc index) rest (first.hash ∷ seen)
        ((first.hash, first.index) ∷ positions) found a position (ground arith) (omega arith) e)
    where
      step :
          (lookup a ((first.hash, first.index) ∷ positions) ≡ some position)
            ⊎ IsPlacedAt (suc index) rest a position
          → (lookup a positions ≡ some position) ⊎ IsPlacedAt index (first ∷ rest) a position
      step (inl here) = elim (Bool-cases (first.hash == a)) [
        | inl same ↦ inr (first, ground arith, ground arith, ground arith)
        | inr other ↦ inl (ground arith)
      ]
      step (inr (t, at, is, le)) =
          inr (t, ground (arith, get_elem?-cons first rest (position - index)), is, omega arith)
