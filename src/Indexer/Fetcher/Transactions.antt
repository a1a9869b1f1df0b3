-- ===== src/Indexer/Fetcher/Transactions.antt =====
-- What `mapTransactions` returns.
use ethindexer.Common.{
  ℕ, zero, suc, ◌+◌, ◌-◌, ◌%◌, ◌≤◌, ◌≡◌, refl, List, [], ◌∷◌, Option, none, some, arith, true, ◌⊎◌,
  inl, inr, get_elem?, get_elem?-cons, length, lookup, elem, Distinct, ◌==◌, Bool-cases, ap,
}
use ethindexer.Failure.{Result, ok, Result-cases}
use ethindexer.Domain.{Hash, Transaction, uint32_size}
use ethindexer.Ethereum.{RawTransaction}
use ethindexer.Store.Validate.Transactions.{hashes, IsPlacedAt}
use ethindexer.Indexer.Fetcher.{Fetcher, derived, map_transaction, map_from}

module _ (f : Fetcher) (number : ℕ) (hash : Hash) where
  -- One round that passes.
  record Mapped (index : ℕ) (transaction : RawTransaction) (rest : List (Option RawTransaction))
      (positions : List (Hash × ℕ)) (found : List Transaction × List (Hash × ℕ)) : Type 0 where
    mapped : Transaction
    more : List Transaction × List (Hash × ℕ)
    rest_ok :
        map_from f number hash
          (suc index)
          rest
          ((transaction.hash, index % uint32_size) ∷ positions)
        ≡ ok more
    is_found : found ≡ (mapped ∷ more.0, more.1)
    unseen : lookup transaction.hash positions ≡ none
    same_hash : mapped.hash ≡ transaction.hash
    in_block : (mapped.block_number ≡ number) × (mapped.block_hash ≡ hash)
    place : mapped.index ≡ index % uint32_size

  map_from_step :
      (index : ℕ) (transaction : RawTransaction) (rest : List (Option RawTransaction))
      (positions : List (Hash × ℕ)) (found : List Transaction × List (Hash × ℕ))
      → map_from f number hash index (some transaction ∷ rest) positions ≡ ok found
      → Mapped index transaction rest positions found
  unfolding map_from map_transaction
  map_from_step index transaction rest positions found h =
      elim (Result-cases (derived (f.signer transaction))) [
        | inr (x, e) ↦ absurd (ground arith)
        | inl (sender, e) ↦ elim (Result-cases next) [
          | inr (x, r) ↦ absurd (ground arith)
          | inl (more, r) ↦ record {
            mapped = map_transaction f number hash (index % uint32_size) transaction sender;
            more = more;
            rest_ok = r;
            is_found = ground arith;
            unseen = ground arith;
            same_hash = refl;
            in_block = (refl, refl);
            place = refl;
          }
        ]
      ]
    where
      next : Result (List Transaction × List (Hash × ℕ))
      next =
          map_from f number hash (suc index) rest
            ((transaction.hash, index % uint32_size) ∷ positions)

  pub length-map_from :
      (index : ℕ) (transactions : List (Option RawTransaction)) (positions : List (Hash × ℕ))
      (found : List Transaction × List (Hash × ℕ))
      → map_from f number hash index transactions positions ≡ ok found
      → length found.0 ≡ length transactions
  length-map_from index [] positions found h = unfold map_from in ground arith
  length-map_from index (none ∷ rest) positions found h = unfold map_from in cc
  length-map_from index (some transaction ∷ rest) positions found h =
      let step = map_from_step index transaction rest positions found h in
      rw step.is_found (ap suc (length-map_from (suc index) rest _ step.more step.rest_ok))

  -- Each transaction names the block and its place.
  pub mapped_placed :
      (index : ℕ) (transactions : List (Option RawTransaction)) (positions : List (Hash × ℕ))
      (found : List Transaction × List (Hash × ℕ)) (i : ℕ) (t : Transaction)
      → map_from f number hash index transactions positions ≡ ok found
      → index + length transactions ≤ uint32_size
      → get_elem? found.0 i ≡ some t
      → (t.block_number ≡ number) × (t.block_hash ≡ hash) × (t.index ≡ index + i)
  mapped_placed index [] positions found i t h fits at = unfold map_from in absurd (ground arith)
  mapped_placed index (none ∷ rest) positions found i t h fits at = unfold map_from in cc
  mapped_placed index (some transaction ∷ rest) positions found zero t h fits at =
      let step = map_from_step index transaction rest positions found h in
      let here : get_elem? (step.mapped ∷ step.more.0) 0 ≡ some t = rw step.is_found at at in
      ground (arith, step.in_block, step.place, here)
  mapped_placed index (some transaction ∷ rest) positions found (suc i) t h fits at =
      let step = map_from_step index transaction rest positions found h in
      let later : get_elem? step.more.0 i ≡ some t = rw step.is_found at at in
      ground
        (arith, mapped_placed (suc index) rest _ step.more i t step.rest_ok (omega arith) later)

  -- No hash of the block had a position before.
  mapped_fresh :
      (index : ℕ) (transactions : List (Option RawTransaction)) (positions : List (Hash × ℕ))
      (found : List Transaction × List (Hash × ℕ)) (a : Hash)
      → map_from f number hash index transactions positions ≡ ok found
      → elem a (hashes found.0) ≡ true
      → lookup a positions ≡ none
  mapped_fresh index [] positions found a h e = unfold map_from in absurd (ground arith)
  mapped_fresh index (none ∷ rest) positions found a h e = unfold map_from in cc
  mapped_fresh index (some transaction ∷ rest) positions found a h e =
      let step = map_from_step index transaction rest positions found h in
      let there : elem a (hashes (step.mapped ∷ step.more.0)) ≡ true = rw step.is_found at e in
      ground (
        arith,
        there,
        step.unseen,
        step.same_hash,
        mapped_fresh (suc index) rest ((transaction.hash, index % uint32_size) ∷ positions)
            step.more a step.rest_ok,
      )

  -- No hash stands twice in the block.
  pub mapped-Distinct :
      (index : ℕ) (transactions : List (Option RawTransaction)) (positions : List (Hash × ℕ))
      (found : List Transaction × List (Hash × ℕ))
      → map_from f number hash index transactions positions ≡ ok found
      → Distinct (hashes found.0)
  mapped-Distinct index [] positions found h =
      let is_empty : found ≡ ([], positions) = unfold map_from in ground arith in rw is_empty tt
  mapped-Distinct index (none ∷ rest) positions found h = unfold map_from in cc
  mapped-Distinct index (some transaction ∷ rest) positions found h =
      let step = map_from_step index transaction rest positions found h in
      let fresh =
        mapped_fresh (suc index) rest ((transaction.hash, index % uint32_size) ∷ positions)
          step.more step.mapped.hash step.rest_ok in
      rw step.is_found (
        ground (arith, fresh, step.same_hash),
        mapped-Distinct (suc index) rest _ step.more step.rest_ok,
      )

  -- The map of positions finds a transaction of the block where it says.
  pub mapped_positions :
      (index : ℕ) (transactions : List (Option RawTransaction)) (positions : List (Hash × ℕ))
      (found : List Transaction × List (Hash × ℕ)) (a : Hash) (position : ℕ)
      → map_from f number hash index transactions positions ≡ ok found
      → index + length transactions ≤ uint32_size
      → lookup a found.1 ≡ some position
      → (lookup a positions ≡ some position) ⊎ IsPlacedAt index found.0 a position
  mapped_positions index [] positions found a position h fits e =
      inl (unfold map_from in ground arith)
  mapped_positions index (none ∷ rest) positions found a position h fits e = unfold map_from in cc
  mapped_positions index (some transaction ∷ rest) positions found a position h fits e =
      let step = map_from_step index transaction rest positions found h in
      let later : lookup a step.more.1 ≡ some position = rw step.is_found at e in
      choose step
        (mapped_positions (suc index) rest _ step.more a position step.rest_ok (omega arith) later)
    where
      choose :
          (step : Mapped index transaction rest positions found)
          → (lookup a ((transaction.hash, index % uint32_size) ∷ positions) ≡ some position)
            ⊎ IsPlacedAt (suc index) step.more.0 a position
          → (lookup a positions ≡ some position) ⊎ IsPlacedAt index found.0 a position
      choose step (inl here) = elim (Bool-cases (transaction.hash == a)) [
        | inl same ↦ inr (
            rw step.is_found
              (step.mapped, ground arith, ground (arith, step.same_hash), ground arith))
        | inr other ↦ inl (ground arith)
      ]
      choose step (inr (t, there, is, le)) = inr (
          rw step.is_found (
            t,
            ground (arith, get_elem?-cons step.mapped step.more.0 (position - index)),
            is,
            omega arith,
          ))
