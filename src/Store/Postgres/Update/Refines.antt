-- ===== src/Store/Postgres/Update/Refines.antt =====
-- That the PostgreSQL store and the in-memory store keep the same hashes.
use ethindexer.Common.{
  ℕ, zero, suc, ◌+◌, ◌-◌, ◌≤◌, ◌<◌, ◌≡◌, sym, ap, ◌∙◌, inl, inr, List, [], ◌∷◌, Option, none, some,
  arith, get_elem?, ltb, if◌then◌else◌, pos, Option-cases, subst,
}
use ethindexer.Failure.{Result, ok, err, >>=-eq-ok, ok_inj, not_found, ◌>>◌, Context}
use ethindexer.Domain.{Hash, BlockBundle, CanonicalUpdate, ChainTip, uint256_size, uint64_size}
use ethindexer.Store.Validate.Replacement.{number-get_elem?}
use ethindexer.Store.Memory.{Memory}
use ethindexer.Store.Memory.Update.{lookup-apply}
use ethindexer.Store.Postgres.Columns.{max_int64, postgres_int64}
use ethindexer.Store.Postgres.Codec.{decode_hash-hash_bytes}
use ethindexer.Store.Postgres.Validation.{validate_postgres_block, validate_bundles}
use ethindexer.Store.Postgres.Validation.Bounds.{
  IsPassed, validate_postgres_update-IsPassed, validate_postgres_update_total,
}
use ethindexer.Store.Postgres.Driver.{Driver}
use ethindexer.Store.Postgres.Tables.{Tables, delete_canonical_range, select_hash}
use ethindexer.Store.Postgres.Update.{
  Faults, insert_canonical_bundles, lock_writer, check_chain, delete_replaced,
  check_retained_parent, insert_blocks, canonical_tip_in_transaction, write_sync_state,
  in_transaction, apply_canonical_update,
}
use ethindexer.Store.Postgres.Update.Atomic.{IsDone, apply_canonical_update_whole}
use ethindexer.Store.Postgres.Update.Faultless.{insert_canonical_bundles_ran}
use ethindexer.Store.Postgres.Update.Contents.{
  hash_over, run-hash_over, select_hash-delete_canonical_range,
}
use ethindexer.Store.Postgres.Reads.{canonical_hash}

write_sync_state_blocks :
    (fault : Context) (update : CanonicalUpdate) (tip : Option ChainTip) (t t' : Tables)
    → write_sync_state fault update tip t ≡ ok t'
    → t'.blocks ≡ t.blocks
unfolding write_sync_state postgres_int64
write_sync_state_blocks (some e) update none t t' h = ground (arith, h)
write_sync_state_blocks none update none t t' h = ground (arith, h)
write_sync_state_blocks (some e) update (some tip) t t' h = ground (arith, h)
write_sync_state_blocks none update (some tip) t t' h = ground (arith, h)

passed_on : (check : Result (Unit {0})) (t t' : Tables) → (check >> ok t) ≡ ok t' → t' ≡ t
passed_on check t t' h = let (done, _, same) = >>=-eq-ok check _ h in sym (ok_inj t t' same)

deleted_range :
    (driver : Driver) (faults : Faults) (update : CanonicalUpdate) (t t' : Tables)
    → postgres_int64 update.replace_from ≡ ok (pos update.replace_from)
    → postgres_int64 update.retain_from ≡ ok (pos update.retain_from)
    → delete_replaced driver faults update t ≡ ok t'
    → t' ≡ delete_canonical_range (pos update.replace_from) (pos update.retain_from) t
deleted_range driver faults update t t' replace retain h = elim (Option-cases faults.at_delete) [
  | inl fine ↦ ground (arith, h, replace, retain, fine)
  | inr (e, broken) ↦ absurd (ground (arith, h, replace, retain, broken))
]

-- The tables once the blocks are inserted.
in_transaction_inserted :
    (driver : Driver) (faults : Faults) (update : CanonicalUpdate) (t t' : Tables)
    → postgres_int64 update.replace_from ≡ ok (pos update.replace_from)
    → postgres_int64 update.retain_from ≡ ok (pos update.retain_from)
    → in_transaction driver faults update t ≡ ok t'
    → (u : Tables) × (insert_canonical_bundles driver faults.at_batch update.blocks
          (delete_canonical_range (pos update.replace_from) (pos update.retain_from) t)
        ≡ ok u)
      × (t'.blocks ≡ u.blocks)
unfolding in_transaction
in_transaction_inserted driver faults update t t' replace retain h =
    let (t₁, locked, h₁) = >>=-eq-ok (lock_writer driver faults t) _ h in
    let (t₂, checked, h₂) = >>=-eq-ok (check_chain driver faults update t₁) _ h₁ in
    let (t₃, deletes, h₃) = >>=-eq-ok (delete_replaced driver faults update t₂) _ h₂ in
    let (t₄, linked, h₄) = >>=-eq-ok (check_retained_parent driver faults update t₃) _ h₃ in
    let (u, inserted, h₅) = >>=-eq-ok (insert_blocks driver faults update t₄) _ h₄ in
    let (tip, read, h₆) = >>=-eq-ok (canonical_tip_in_transaction faults.at_tip u) _ h₅ in
    let same : t₄ ≡ delete_canonical_range (pos update.replace_from) (pos update.retain_from) t =
      passed_on _ t₃ t₄ linked
      ∙ deleted_range driver faults update t₂ t₃ replace retain deletes
      ∙ ap (delete_canonical_range (pos update.replace_from) (pos update.retain_from))
          (passed_on _ t₁ t₂ checked ∙ passed_on _ t t₁ locked) in
    (
      u,
      subst (λ z. insert_blocks driver faults update z ≡ ok u) same inserted,
      write_sync_state_blocks faults.at_sync_state update tip u t' h₆,
    )

select_hash_blocks :
    (k : ℕ) (t u : Tables) → t.blocks ≡ u.blocks → select_hash (pos k) t ≡ select_hash (pos k) u
unfolding select_hash
select_hash_blocks k t u h = ground (arith, h)

-- The hash of a block of the update.
abbrev pub hash_or_missing : Option BlockBundle → Result Hash
hash_or_missing none = err not_found
hash_or_missing (some bundle) = ok bundle.block.hash

validated_number :
    (bs : List BlockBundle) (i : ℕ) (b : BlockBundle)
    → validate_bundles bs ≡ ok tt
    → get_elem? bs i ≡ some b
    → b.block.number ≤ max_int64
unfolding validate_bundles validate_postgres_block
validated_number [] i b h at = absurd (ground (arith, at))
validated_number (c ∷ bs) zero b h at = ground (arith, h, at)
validated_number (c ∷ bs) (suc i) b h at = validated_number bs i b (ground (arith, h)) at

module _ (driver : Driver) (faults : Faults) (update : CanonicalUpdate) (t t' : Tables)
    (done : IsDone driver faults update t t') where
  passed : IsPassed update
  passed = validate_postgres_update-IsPassed update done.0

  -- What each number holds afterwards.
  select_hash-apply :
      (k : ℕ)
      → select_hash (pos k) t'
        ≡ hash_over update.replace_from update.blocks k (
            select_hash
              (pos k)
              (delete_canonical_range (pos update.replace_from) (pos update.retain_from) t))
  select_hash-apply k =
      let (sent, chain, replace, retain) = validate_postgres_update_total update done.0 in
      let (ss, of) = sent in
      let (u, inserted, same) =
        in_transaction_inserted driver faults update t t' replace retain done.1 in
      select_hash_blocks k t' u same
      ∙ run-hash_over driver update.blocks update.replace_from ss k _ u passed.numbered of
          (insert_canonical_bundles_ran driver faults.at_batch update.blocks ss _ u of inserted)

  in_range_number :
      (i : ℕ) (b : BlockBundle)
      → get_elem? update.blocks i ≡ some b
      → update.replace_from + i ≤ max_int64
  in_range_number i b at = omega (
    arith,
    number-get_elem? update.replace_from update.blocks i b passed.numbered at,
    validated_number update.blocks i b passed.bundles at,
  )

  -- What `CanonicalHash` gives after a write that was carried out: nothing below `RetainFrom`, what it
  -- gave before from there up to `ReplaceFrom`, and from there on the hashes of the update's blocks.
  pub canonical_hash-apply :
      (k : ℕ)
      → ((i : ℕ) (b : BlockBundle)
          → get_elem? update.blocks i ≡ some b
          → b.block.hash < uint256_size)
      → canonical_hash none k t' ≡ (
          if ltb k update.retain_from
          then err not_found
          else (if ltb k update.replace_from
              then canonical_hash none k t
              else hash_or_missing (get_elem? update.blocks (k - update.replace_from))))
  unfolding canonical_hash postgres_int64
  canonical_hash-apply k fits =
      elim (Option-cases (get_elem? update.blocks (k - update.replace_from))) [
        | inl beyond ↦ ground (
          arith,
          beyond,
          passed.in_order,
          passed.replace_from,
          select_hash-apply k,
          select_hash-delete_canonical_range update.replace_from update.retain_from k t,
        )
        | inr (b, at) ↦ ground (
          arith,
          at,
          passed.in_order,
          passed.replace_from,
          select_hash-apply k,
          select_hash-delete_canonical_range update.replace_from update.retain_from k t,
          in_range_number (k - update.replace_from) b at,
          decode_hash-hash_bytes b.block.hash (fits (k - update.replace_from) b at),
        )
      ]

-- The PostgreSQL store and the in-memory store answer alike: if `CanonicalHash` gives the same at
-- every number before an update whose hashes have 32 bytes, and both stores carry it out, then it
-- gives the same at every number afterwards.
pub apply_canonical_update-refines :
    (driver : Driver) (faults : Faults) (update : CanonicalUpdate) (t : Tables) (m : Memory)
    → (apply_canonical_update driver faults update t).1 ≡ none
    → (ethindexer.Store.Memory.apply_canonical_update none update m).1 ≡ none
    → ((i : ℕ) (b : BlockBundle) → get_elem? update.blocks i ≡ some b → b.block.hash < uint256_size)
    → ((k : ℕ) → canonical_hash none k t ≡ ethindexer.Store.Memory.canonical_hash none k m)
    → (k : ℕ)
    → canonical_hash none k (apply_canonical_update driver faults update t).0
      ≡ ethindexer.Store.Memory.canonical_hash none k
          (ethindexer.Store.Memory.apply_canonical_update none update m).0
unfolding ethindexer.Store.Memory.canonical_hash
apply_canonical_update-refines driver faults update t m written kept fits agree k =
    let done = apply_canonical_update_whole driver faults update t written in
    let small : update.replace_from < uint64_size =
      omega (arith, (validate_postgres_update-IsPassed update done.0).replace_from) in
    ground (
      arith,
      agree k,
      canonical_hash-apply driver faults update t _ done k fits,
      lookup-apply none update m small kept k,
    )
