-- ===== src/Store/Validate/Replacement.antt =====
-- What `validateReplacement` accepts: blocks numbered one after another from `ReplaceFrom`.
use ethindexer.Common.{
  ℕ, zero, suc, ◌+◌, ◌≤◌, ◌<◌, ◌≡◌, refl, List, [], ◌∷◌, some, arith, get_elem?, length,
}
use ethindexer.Failure.{ok}
use ethindexer.Domain.{BlockBundle, CanonicalUpdate, uint64_size}
use ethindexer.Store.Validate.{check_contiguous, check_replacement, validate_replacement}

abbrev pub IsNumbered : ℕ → List BlockBundle → Type 0
IsNumbered from [] = Unit
IsNumbered from (bundle ∷ rest) = (bundle.block.number ≡ from) × IsNumbered (from + 1) rest

contiguous-IsNumbered :
    (blocks : List BlockBundle) (previous : ℕ)
    → previous < uint64_size
    → check_contiguous previous blocks ≡ ok tt
    → IsNumbered (previous + 1) blocks
unfolding check_contiguous
contiguous-IsNumbered [] previous small h = tt
contiguous-IsNumbered (bundle ∷ rest) previous small h =
    ground (arith, contiguous-IsNumbered rest bundle.block.number)

contiguous_of_IsNumbered :
    (blocks : List BlockBundle) (previous : ℕ)
    → previous + length blocks < uint64_size
    → IsNumbered (previous + 1) blocks
    → check_contiguous previous blocks ≡ ok tt
unfolding check_contiguous
contiguous_of_IsNumbered [] previous small h = refl
contiguous_of_IsNumbered (bundle ∷ rest) previous small (here, more) =
    ground (arith, contiguous_of_IsNumbered rest bundle.block.number)

-- If `validateReplacement` accepts an update whose `ReplaceFrom` is a uint64, its blocks are numbered
-- upwards from there, one after another.
pub validate_replacement-IsNumbered :
    (update : CanonicalUpdate)
    → update.replace_from < uint64_size
    → validate_replacement update ≡ ok tt
    → IsNumbered update.replace_from update.blocks
unfolding validate_replacement check_replacement
validate_replacement-IsNumbered update small h = go update.blocks h
  where
    go :
        (blocks : List BlockBundle)
        → check_replacement update.replace_from blocks ≡ ok tt
        → IsNumbered update.replace_from blocks
    go [] h = tt
    go (bundle ∷ rest) h = ground (arith, contiguous-IsNumbered rest bundle.block.number)

pub number-get_elem? :
    (from : ℕ) (blocks : List BlockBundle) (i : ℕ) (bundle : BlockBundle)
    → IsNumbered from blocks
    → get_elem? blocks i ≡ some bundle
    → bundle.block.number ≡ from + i
number-get_elem? from [] i bundle h e = cc
number-get_elem? from (first ∷ rest) zero bundle h e = ground arith
number-get_elem? from (first ∷ rest) (suc i) bundle h e =
    omega (arith, number-get_elem? (from + 1) rest i bundle h.1 e)

-- `validateReplacement` accepts every update whose blocks are numbered upwards from `ReplaceFrom`
-- and end within uint64.
pub validate_replacement_accepts :
    (update : CanonicalUpdate)
    → update.replace_from + length update.blocks ≤ uint64_size
    → IsNumbered update.replace_from update.blocks
    → validate_replacement update ≡ ok tt
unfolding validate_replacement check_replacement
validate_replacement_accepts update small h = go update.blocks small h
  where
    go :
        (blocks : List BlockBundle)
        → update.replace_from + length blocks ≤ uint64_size
        → IsNumbered update.replace_from blocks
        → check_replacement update.replace_from blocks ≡ ok tt
    go [] small h = refl
    go (bundle ∷ rest) small (here, more) =
        ground (arith, contiguous_of_IsNumbered rest bundle.block.number)
