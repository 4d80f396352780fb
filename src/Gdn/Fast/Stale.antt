-- ===== src/Gdn/Fast/Stale.antt =====
-- Shared buffers that hold the rows of several requests.
use v100_skinny_unify.Prelude.{
  ℕ, ◌+◌, ◌≤◌, ◌≡◌, refl, sym, ap, ◌∙◌, inl, inr, Bool, true, false, Option, some, List, ◌∷◌, ltb,
  if_true, arith, if◌then◌else◌,
}
use v100_skinny_unify.Prelude.Lists.{length}
use v100_skinny_unify.Queries.{last_or}
use v100_skinny_unify.Gdn.Fast.{
  GraphKey, equals_key, Common, Builder, copy, Request, key_of, update_common, write_common,
  fast_shared, fast_update, Requests, spec_update,
}
use v100_skinny_unify.Gdn.Fast.Tails.{fill-out}

equals_key_refl : (key : GraphKey) → equals_key (some key) key ≡ true
equals_key_refl (b, q, w) = ground arith

-- Row 1 of the masks and of the locations.
abbrev SameRow : Common → Common → Type 0
SameRow c d = (c.masks 1 ≡ d.masks 1) × (c.starts 1 ≡ d.starts 1)

either_row : (test : Bool) (x c : Common) → SameRow x c → SameRow (if test then x else c) c
either_row true x c h = h
either_row false x c h = (refl, refl)

kept_row :
    {A : Type 0} (tail : Bool) (r : Request A) (c : Common) (key : Option GraphKey)
    (epoch : Option ℕ)
    → tail ≡ true
    → SameRow (record (write_common tail r c) { initialized_key = key; updated_epoch = epoch }) c
unfolding write_common
kept_row true r c key epoch e =
    (fill-out 0 1 1 true c.masks (inr (omega arith)), fill-out 0 1 1 0 c.starts (inr (omega arith)))
kept_row false r c key epoch e = cc

-- With the key of its shape a fast build leaves row 1 as it is.
keyed_row :
    {A : Type 0} (r : Request A) (c : Common)
    → c.initialized_key ≡ some (key_of r)
    → SameRow (fast_shared r c) c
unfolding fast_shared
keyed_row r c e =
    let tail = equals_key c.initialized_key (key_of r) in
    either_row (update_common true r.epoch c.updated_epoch tail) _ c (
      kept_row tail r c (some (key_of r)) r.epoch
        (ap (λ k. equals_key k (key_of r)) e ∙ equals_key_refl (key_of r)))

copied_mask :
    (m : Bool) (ms masks : List Bool) (buffer : ℕ → Bool)
    → masks ≡ m ∷ true ∷ ms
    → copy masks buffer 1 ≡ true
unfolding copy
copied_mask m ms masks buffer e =
    ap (λ l. copy l buffer 1) e ∙ if_true (ltb 1 (length (m ∷ true ∷ ms))) _ _ (ground arith)

copied_end :
    (first end : ℕ) (rest ends : List ℕ) (buffer : ℕ → ℕ)
    → ends ≡ end ∷ rest
    → copy (first ∷ ends) buffer 1 ≡ end
unfolding copy
copied_end first end rest ends buffer e =
    ap (λ l. copy (first ∷ l) buffer 1) e
    ∙ if_true (ltb 1 (length (first ∷ end ∷ rest))) _ _ (ground arith)

-- On shared buffers the padding may be wrong: where a batch of two speculative requests or more was
-- not built fast, a fast build for one request with as many tokens as these had together, and with
-- the same number of rows and width, leaves row 1 as the second request: it is marked as a request,
-- and the location after the one request is where the first of the two ended.
pub fast-stale :
    {A : Type 0} (pad : A) (q : Request A) (r : Requests A) (b : Builder A) (m : Bool)
    (ms : List Bool) (end : ℕ) (rest : List ℕ)
    → key_of q ≡ (r.batch_size, last_or r.first_start r.ends, r.width)
    → 2 ≤ length r.states
    → r.masks ≡ m ∷ true ∷ ms
    → r.ends ≡ end ∷ rest
    → let c = (fast_update pad true q (spec_update pad true r b)).common in
      (c.masks 1 ≡ true) × (c.starts 1 ≡ end)
unfolding fast_update spec_update
fast-stale pad q r b m ms end rest key many masks ends =
    let c = (spec_update pad true r b).common in
    let n = length r.states in
    let (mask, start) = keyed_row q c (ap some (sym key)) in
    (
      mask
          ∙ fill-out n r.batch_size 1 false (copy r.masks b.common.masks) (inl (omega arith))
          ∙ copied_mask m ms r.masks b.common.masks masks,
      start
          ∙ fill-out (n + 1) (r.batch_size + 1) 1 (last_or r.first_start r.ends)
              (copy (r.first_start ∷ r.ends) b.common.starts) (inl (omega arith))
          ∙ copied_end r.first_start end rest r.ends b.common.starts ends,
    )
