-- ===== src/Store/Memory/Lookup.antt =====
-- What `TransactionByHash` finds.
use ethindexer.Common.{
  ℕ, zero, suc, ◌≡◌, inl, inr, refl, List, [], ◌∷◌, none, some, true, false, arith, get_elem?,
  lookup, keys, elem, elem-keys, Distinct, Option-cases,
}
use ethindexer.Failure.{ok, err, Error, not_found, Result-cases}
use ethindexer.Domain.{Hash, Transaction, BlockBundle, TransactionResult}
use ethindexer.Store.Validate.{BundleMap}
use ethindexer.Store.Validate.Transactions.{hashes}
use ethindexer.Store.Canonical.Chain.{IsCanonical}
use ethindexer.Store.Memory.Clone.{clone_transaction, clone_transaction_lem}
use ethindexer.Store.Memory.Emitted.{IsEmitted, transaction_events-IsEmitted}
use ethindexer.Store.Memory.Queries.{
  find_transaction, search_transaction, transaction_by_hash, transaction_events,
}

find_missing :
    (hash : Hash) (ts : List Transaction)
    → find_transaction hash ts ≡ none
    → elem hash (hashes ts) ≡ false
unfolding find_transaction
find_missing hash [] h = refl
find_missing hash (t ∷ ts) h = ground (arith, h, find_missing hash ts)

find_found :
    (hash : Hash) (ts : List Transaction) (t : Transaction)
    → find_transaction hash ts ≡ some t
    → elem hash (hashes ts) ≡ true
unfolding find_transaction
find_found hash [] t h = absurd (ground (arith, h))
find_found hash (u ∷ ts) t h = ground (arith, h, find_found hash ts t)

elem-hashes :
    (ts : List Transaction) (i : ℕ) (t : Transaction)
    → get_elem? ts i ≡ some t
    → elem t.hash (hashes ts) ≡ true
elem-hashes [] i t at = absurd (ground (arith, at))
elem-hashes (u ∷ ts) zero t at = ground (arith, at)
elem-hashes (u ∷ ts) (suc i) t at = ground (arith, elem-hashes ts i t at)

-- In a block whose hashes are distinct the search by hash finds the transaction itself.
find_itself :
    (ts : List Transaction) (i : ℕ) (t : Transaction)
    → Distinct (hashes ts)
    → get_elem? ts i ≡ some t
    → find_transaction t.hash ts ≡ some t
unfolding find_transaction
find_itself [] i t d at = absurd (ground (arith, at))
find_itself (u ∷ ts) zero t d at = ground (arith, at)
find_itself (u ∷ ts) (suc i) t d at =
    ground (arith, d, elem-hashes ts i t at, find_itself ts i t d.1 at)

-- The bundle of the map in which a search has found its transaction.
abbrev Found : Hash → BundleMap → TransactionResult → Type 0
Found hash m r =
    (n : ℕ) × (b : BlockBundle) × (t : Transaction) × (lookup n m ≡ some b)
    × (find_transaction hash b.transactions ≡ some t)
    × (r ≡ record { transaction = clone_transaction t; events = transaction_events hash b })

search-Found :
    (hash : Hash) (m : BundleMap) (r : TransactionResult)
    → Distinct (keys m)
    → search_transaction hash m ≡ ok r
    → Found hash m r
unfolding search_transaction
search-Found hash [] r d h = absurd (ground (arith, h))
search-Found hash ((k, b) ∷ m) r d h = elim (Option-cases (find_transaction hash b.transactions)) [
  | inr (t, is) ↦ (k, b, t, ground arith, is, ground (arith, h, is))
  | inl missing ↦
      let (n, c, t, at, is, same) = search-Found hash m r d.1 (ground (arith, h, missing)) in
      (n, c, t, ground (arith, d, at, elem-keys n m), is, same)
]

search_missing :
    (hash : Hash) (m : BundleMap) (e : Error) (n : ℕ) (b : BlockBundle)
    → search_transaction hash m ≡ err e
    → lookup n m ≡ some b
    → find_transaction hash b.transactions ≡ none
unfolding search_transaction
search_missing hash [] e n b h at = absurd (ground (arith, at))
search_missing hash ((k, c) ∷ m) e n b h at =
    elim (Option-cases (find_transaction hash c.transactions)) [
      | inr (t, is) ↦ absurd (ground (arith, h, is))
      | inl missing ↦ ground (arith, h, missing, at, search_missing hash m e n b)
    ]

find_absent :
    (hash : Hash) (ts : List Transaction)
    → elem hash (hashes ts) ≡ false
    → find_transaction hash ts ≡ none
unfolding find_transaction
find_absent hash [] h = refl
find_absent hash (t ∷ ts) h = ground (arith, h, find_absent hash ts)

search_fails :
    (hash : Hash) (m : BundleMap) (e : Error)
    → search_transaction hash m ≡ err e
    → search_transaction hash m ≡ err not_found
unfolding search_transaction
search_fails hash [] e h = refl
search_fails hash ((k, b) ∷ m) e h = elim (Option-cases (find_transaction hash b.transactions)) [
  | inr (t, is) ↦ absurd (ground (arith, h, is))
  | inl missing ↦ ground (arith, h, missing, search_fails hash m e)
]

pub transaction_by_hash_given :
    (m : BundleMap) (n i : ℕ) (b : BlockBundle) (t : Transaction)
    → Distinct (keys m)
    → IsCanonical m
    → lookup n m ≡ some b
    → get_elem? b.transactions i ≡ some t
    → transaction_by_hash none t.hash m
      ≡ ok (record { transaction = t; events = transaction_events t.hash b })
unfolding transaction_by_hash
transaction_by_hash_given m n i b t d canonical at place =
    elim (Result-cases (search_transaction t.hash m)) [
      | inr (e, lost) ↦ absurd (
          ground (
            arith,
            search_missing t.hash m e n b lost at,
            find_itself b.transactions i t (canonical.consistent n b at).transactions_distinct
                place,
          ))
      | inl (r, found) ↦
          let (k, c, u, there, is, same) = search-Found t.hash m r d found in
          let one : n ≡ k =
            canonical.transactions_unique n k b c t.hash at there
              (elem-hashes b.transactions i t place) (find_found t.hash c.transactions u is) in
          ground (
            arith,
            found,
            same,
            one,
            at,
            there,
            is,
            clone_transaction_lem t,
            find_itself b.transactions i t (canonical.consistent n b at).transactions_distinct
                place,
          )
    ]

-- On stored blocks that form a canonical chain, `TransactionByHash` of the hash of a transaction of a
-- stored block gives that transaction and the events of its block that name it, all of them and no
-- other, in ascending order of their log indexes, in whatever order the map is read.
pub transaction_by_hash_found :
    (m : BundleMap) (n i : ℕ) (b : BlockBundle) (t : Transaction)
    → Distinct (keys m)
    → IsCanonical m
    → lookup n m ≡ some b
    → get_elem? b.transactions i ≡ some t
    → (r : TransactionResult) × (transaction_by_hash none t.hash m ≡ ok r)
      × (r.transaction ≡ t)
      × IsEmitted t.hash b r.events
transaction_by_hash_found m n i b t d canonical at place = (
  record { transaction = t; events = transaction_events t.hash b },
  transaction_by_hash_given m n i b t d canonical at place,
  refl,
  transaction_events-IsEmitted t.hash b (canonical.consistent n b at).events_distinct,
)

-- `TransactionByHash` of a hash that no transaction of a stored block has is `ErrNotFound`.
pub transaction_by_hash_missing :
    (m : BundleMap) (hash : Hash)
    → Distinct (keys m)
    → ((n : ℕ) (b : BlockBundle) → lookup n m ≡ some b → elem hash (hashes b.transactions) ≡ false)
    → transaction_by_hash none hash m ≡ err not_found
unfolding transaction_by_hash
transaction_by_hash_missing m hash d absent = elim (Result-cases (search_transaction hash m)) [
  | inl (r, found) ↦
      let (k, c, u, there, is, same) = search-Found hash m r d found in
      absurd (ground (arith, is, find_absent hash c.transactions (absent k c there)))
  | inr (e, lost) ↦ ground (arith, search_fails hash m e lost)
]
