-- ===== src/Gdn/Batch/Masks.antt =====
-- Which batches are taken for speculative.
use v100_skinny_unify.Prelude.{
  ◌<◌, ◌≡◌, refl, sym, ap, ◌∙◌, Bool, true, false, Option, none, some, List, arith, if◌then◌else◌,
}
use v100_skinny_unify.Prelude.Options.{◌>>=◌, >>=-first, some_injective}
use v100_skinny_unify.Prelude.Int.{ℤ}
use v100_skinny_unify.Gdn.Contract.{pick}
use v100_skinny_unify.Gdn.Contract.Rows.{count}
use v100_skinny_unify.Gdn.Batch.{sum_ℤ, is_zero, some_request, with_drafts, or_mask, sequence_masks}

-- The requests of the mask have draft tokens, where these are known.
abbrev pub HaveDrafts : Option (List ℤ) → List Bool → Type 0
HaveDrafts none mask = Unit {0}
HaveDrafts (some drafts) mask =
    (chosen : List ℤ) × (pick mask drafts ≡ some chosen) × (is_zero (sum_ℤ chosen) ≡ false)

some_request-some :
    (m mask : List Bool) → some_request m ≡ some mask → (m ≡ mask) × (0 < count mask)
some_request-some m mask e = ground arith

or_request :
    (o : Option (List Bool)) (mask : List Bool)
    → (o >>= some_request) ≡ some mask
    → (o ≡ some mask) × (0 < count mask)
or_request o mask e =
    let (m, found, e') = >>=-first o some_request e in
    let (same, many) = some_request-some m mask e' in (found ∙ ap some same, many)

kept :
    (test : Bool) (m mask : List Bool)
    → (if test then none else some m) ≡ some mask
    → (m ≡ mask) × (test ≡ false)
kept true m mask e = cc
kept false m mask e = (some_injective e, refl)

with_drafts-some :
    (drafts : Option (List ℤ)) (o : Option (List Bool)) (mask : List Bool)
    → with_drafts drafts o ≡ some (some mask)
    → (o ≡ some mask) × HaveDrafts drafts mask
unfolding with_drafts
with_drafts-some drafts none mask e = cc
with_drafts-some none (some m) mask e = (some_injective e, tt)
with_drafts-some (some drafts) (some m) mask e =
    let (chosen, found, e') = >>=-first (pick m drafts) _ e in
    let (same, nonzero) = kept (is_zero (sum_ℤ chosen)) m mask (some_injective e') in
    (ap some same, (chosen, sym (ap (λ l. pick l drafts) same) ∙ found, nonzero))

-- A batch is speculative only if the decoding is: its mask is then the one that is given, or else
-- that of the requests whose number of draft tokens is not negative; it has a request, and where the
-- numbers of draft tokens are known those of its requests do not add up to 0.
pub sequence_masks-HaveDrafts :
    (use_spec_decode : Bool) (masks : Option (List Bool)) (drafts : Option (List ℤ))
    (mask : List Bool)
    → sequence_masks use_spec_decode masks drafts ≡ some (some mask)
    → (use_spec_decode ≡ true)
      × (or_mask masks drafts ≡ some mask)
      × (0 < count mask)
      × HaveDrafts drafts mask
unfolding sequence_masks
sequence_masks-HaveDrafts false masks drafts mask e = cc
sequence_masks-HaveDrafts true masks drafts mask e =
    let (found, have) = with_drafts-some drafts (or_mask masks drafts >>= some_request) mask e in
    let (given, many) = or_request (or_mask masks drafts) mask found in (refl, given, many, have)
