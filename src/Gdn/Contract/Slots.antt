-- ===== src/Gdn/Contract/Slots.antt =====
-- The slots of a contract: which block a request's state is read from, and that there is one.
use v100_skinny_unify.Prelude.{
  ℕ, zero, suc, ◌+◌, ◌-◌, ◌≤◌, ◌<◌, ◌≡◌, ◌⊎◌, inl, inr, sym, ap, ◌∙◌, Bool, true, false, Option,
  none, some, map, if_false, List, [], ◌∷◌, arith,
}
use v100_skinny_unify.Prelude.Lists.{length, get_elem?, take}
use v100_skinny_unify.Prelude.Options.{◌>>=◌, >>=-first, Holds-some, some_injective}
use v100_skinny_unify.Gdn.Contract.{
  Table, Inputs, Contract, zip_rows, state_offset, select_gdn_state_block_ids, all_in_range,
  none_padded, build_gdn_spec_decode_state_contract, has_slots, pick, default, from_current,
  from_block_table, from_cache_all, state_indices, columns,
}
use v100_skinny_unify.Gdn.Contract.Rows.{IsChecked, build-Holds}

all_in_range_at :
    (n : ℕ) (xs : List ℕ) (r : ℕ) {x : ℕ}
    → all_in_range n xs ≡ true
    → get_elem? xs r ≡ some x
    → (1 ≤ x) × (x ≤ n + 1)
unfolding all_in_range
all_in_range_at n [] r h e = ground arith
all_in_range_at n (x ∷ xs) zero h e = ground arith
all_in_range_at n (x ∷ xs) (suc r) h e = all_in_range_at n xs r (ground arith) e

none_padded_at :
    {A : Type 0} (is_pad : A → Bool) (xs : List A) (r : ℕ) {x : A}
    → none_padded is_pad xs ≡ true
    → get_elem? xs r ≡ some x
    → is_pad x ≡ false
unfolding none_padded
none_padded_at is_pad [] r h e = ground arith
none_padded_at is_pad (x ∷ xs) zero h e = ground arith
none_padded_at is_pad (x ∷ xs) (suc r) h e = none_padded_at is_pad xs r (ground arith) e

-- What a pairwise combination holds in a row.
zip_rows_at :
    {X Y Z : Type 0} (f : X → Y → Option Z) (xs : List X) (ys : List Y) (r : ℕ) {zs : List Z}
    {x : X} {y : Y}
    → zip_rows f xs ys ≡ some zs
    → get_elem? xs r ≡ some x
    → get_elem? ys r ≡ some y
    → (z : Z) × (f x y ≡ some z) × (get_elem? zs r ≡ some z)
unfolding zip_rows
zip_rows_at f [] ys r h ex ey = absurd (ground arith)
zip_rows_at f (x ∷ xs) [] r h ex ey = absurd (ground arith)
zip_rows_at f (x ∷ xs) (y ∷ ys) zero h ex ey =
    let (z, e, q) = >>=-first (f x y) (λ z. zip_rows f xs ys >>= λ rest. some (z ∷ rest)) h in
    let (rest, e', q') = >>=-first (zip_rows f xs ys) (λ rest. some (z ∷ rest)) q in
    (z, ground arith, ground arith)
zip_rows_at f (x ∷ xs) (y ∷ ys) (suc r) h ex ey =
    let (z, e, q) = >>=-first (f x y) (λ z. zip_rows f xs ys >>= λ rest. some (z ∷ rest)) h in
    let (rest, e', q') = >>=-first (zip_rows f xs ys) (λ rest. some (z ∷ rest)) q in
    let (z', fz, at) = zip_rows_at f xs ys r e' ex ey in (z', fz, ground arith)

-- A row that is not empty makes the test of the slots run.
has_slots_at :
    {A : Type 0} (rows : List (List A)) (r : ℕ) {row : List A}
    → get_elem? rows r ≡ some row
    → 0 < length row
    → has_slots rows ≡ true
unfolding has_slots
has_slots_at [] r e h = cc
has_slots_at (row ∷ rows) zero e h = ground (arith, ap length (some_injective e))
has_slots_at (row ∷ rows) (suc r) e h = ground (arith, has_slots_at rows r e h)

-- The place of a masked element among the masked ones.
abbrev rank : List Bool → ℕ → ℕ
rank [] j = 0
rank (b ∷ mask) zero = 0
rank (true ∷ mask) (suc j) = suc (rank mask j)
rank (false ∷ mask) (suc j) = rank mask j

pick_at :
    {X : Type 0} (mask : List Bool) (xs : List X) (j : ℕ) {ys : List X} {x : X}
    → pick mask xs ≡ some ys
    → get_elem? mask j ≡ some true
    → get_elem? xs j ≡ some x
    → get_elem? ys (rank mask j) ≡ some x
unfolding pick ◌>>=◌
pick_at [] xs j h m e = cc
pick_at (true ∷ mask) [] j h m e = cc
pick_at (false ∷ mask) [] j h m e = cc
pick_at (true ∷ mask) (x ∷ xs) zero h m e =
    let (rest, e', q) = >>=-first (pick mask xs) (λ rest. some (x ∷ rest)) h in
    ap (λ l. get_elem? l 0) (sym (some_injective q)) ∙ e
pick_at (true ∷ mask) (x ∷ xs) (suc j) h m e =
    let (rest, e', q) = >>=-first (pick mask xs) (λ rest. some (x ∷ rest)) h in
    ap (λ l. get_elem? l (suc (rank mask j))) (sym (some_injective q)) ∙ pick_at mask xs j e' m e
pick_at (false ∷ mask) (x ∷ xs) zero h m e = cc
pick_at (false ∷ mask) (x ∷ xs) (suc j) h m e = pick_at mask xs j h m e

get-map :
    {X Y : Type 0} (f : X → Y) (xs : List X) (j : ℕ) {x : X}
    → get_elem? xs j ≡ some x
    → get_elem? (map f xs) j ≡ some (f x)
get-map f [] j e = cc
get-map f (x ∷ xs) zero e = ap (λ o. some (f o)) (some_injective e)
get-map f (x ∷ xs) (suc j) e = get-map f xs j e

get-take :
    {X : Type 0} (n : ℕ) (xs : List X) (j : ℕ) {x : X}
    → get_elem? (take n xs) j ≡ some x
    → get_elem? xs j ≡ some x
get-take zero xs j e = cc
get-take (suc n) [] j e = cc
get-take (suc n) (x ∷ xs) zero e = e
get-take (suc n) (x ∷ xs) (suc j) e = get-take n xs j e

take-some : {X : Type 0} (n : ℕ) (xs : List X) → 0 < length xs → 0 < length (take (n + 1) xs)
take-some n [] h = absurd (omega arith)
take-some n (x ∷ xs) h = let e : n + 1 ≡ suc n = omega arith in rw e (omega arith)

module _ {A : Type 0} (is_pad : A → Bool) (i : Inputs A) where
  -- A selector that is in range, and selects a slot of a row that is no padding.
  abbrev pub IsSelected : List A → ℕ → Type 0
  IsSelected row s =
      (1 ≤ s)
      × (s ≤ i.num_spec + 1)
      × ((a : A) × (get_elem? row (s - 1) ≡ some a) × (is_pad a ≡ false))

  -- So in every row of a contract that has slots.
  abbrev pub SelectsSlots : Contract A → Type 0
  SelectsSlots c =
      (r : ℕ) (row : List A) (s : ℕ)
      → get_elem? c.spec_state_indices r ≡ some row
      → get_elem? c.spec_state_slot_selectors r ≡ some s
      → 0 < length row
      → IsSelected row s

  -- The table whose columns are taken as slots.
  abbrev pub IsSource : Table A → Type 0
  IsSource t =
      (i.current ≡ some t)
      ⊎ ((i.current ≡ none) × (i.is_mamba_cache_all ≡ false) × (t ≡ i.block_table))

  current-row :
      (t : Table A) (j : ℕ) (row : List A) {slots : List (List A) × List A}
      → from_current is_pad i t ≡ some slots
      → get_elem? i.masks j ≡ some true
      → get_elem? t.rows j ≡ some row
      → get_elem? slots.0 (rank i.masks j) ≡ some (take (i.num_spec + 1) row)
  unfolding from_current columns
  current-row t j row h m e =
      let (spec, picked, rest) = >>=-first _ _ h in
      let (source, e1, q1) = >>=-first _ _ rest in
      let (accepted, e2, q2) = >>=-first _ _ q1 in
      let (other, e3, q3) = >>=-first _ _ q2 in
      ap (λ p. get_elem? p.0 (rank i.masks j)) (sym (some_injective q3))
      ∙ pick_at i.masks _ j picked m (get-map (take (i.num_spec + 1)) t.rows j e)

  table-row :
      (j : ℕ) (row : List A) {slots : List (List A) × List A}
      → from_block_table is_pad i ≡ some slots
      → get_elem? i.masks j ≡ some true
      → get_elem? i.block_table.rows j ≡ some row
      → get_elem? slots.0 (rank i.masks j) ≡ some (take (i.num_spec + 1) row)
  unfolding from_block_table columns
  table-row j row h m e =
      let (spec, picked, rest) = >>=-first _ _ h in
      let (source, e1, q1) = >>=-first _ _ rest in
      let (accepted, e2, q2) = >>=-first _ _ q1 in
      let (other, e3, q3) = >>=-first _ _ q2 in
      ap (λ p. get_elem? p.0 (rank i.masks j)) (sym (some_injective q3))
      ∙ pick_at i.masks _ j picked m (get-map (take (i.num_spec + 1)) i.block_table.rows j e)

  source-row :
      (t : Table A) (j : ℕ) (row : List A) {slots : List (List A) × List A}
      → IsSource t
      → state_indices is_pad i i.current ≡ some slots
      → get_elem? i.masks j ≡ some true
      → get_elem? t.rows j ≡ some row
      → get_elem? slots.0 (rank i.masks j) ≡ some (take (i.num_spec + 1) row)
  unfolding state_indices
  source-row t j row (inl given) h m e =
      current-row t j row (sym (ap (state_indices is_pad i) given) ∙ h) m e
  source-row t j row (inr (none_given, one, same)) h m e =
      table-row j row
        (sym (
            if_false i.is_mamba_cache_all (from_cache_all is_pad i) (from_block_table is_pad i) one)
          ∙ sym (ap (state_indices is_pad i) none_given)
          ∙ h)
        m (ap (λ (x : Table A). get_elem? x.rows j) (sym same) ∙ e)

  contract-SelectsSlots : (c : Contract A) → IsChecked is_pad i c → SelectsSlots c
  contract-SelectsSlots c good r row s erow es some_slot =
      let range =
        all_in_range_at i.num_spec c.spec_state_slot_selectors r good.selectors_in_range es in
      let (slots, selected, unpadded) =
        good.selected (has_slots_at c.spec_state_indices r erow some_slot) in
      let (a, ea, at) =
        zip_rows_at (λ row s. get_elem? row (s - 1)) c.spec_state_indices
          c.spec_state_slot_selectors r selected erow es in
      (range.0, range.1, (a, ea, none_padded_at is_pad slots r unpadded at))

  -- With the tests on, a contract is returned only if every request that is decoded speculatively
  -- selects a slot by its own selector: this is between 1 and num_spec + 1, and the slot at the
  -- selector less one is in the request's own row, of the ids that are given or else of the block
  -- table, and is no padding. The row has slots, and the cache is not the one of all blocks.
  pub build-SelectsSlots :
      {c : Contract A} (t : Table A) (j : ℕ) (row : List A) (s : ℕ)
      → i.assert_contract ≡ true
      → build_gdn_spec_decode_state_contract is_pad i ≡ some c
      → IsSource t
      → get_elem? i.masks j ≡ some true
      → get_elem? t.rows j ≡ some row
      → get_elem? (default i.num_accepted_tokens i.selectors) j ≡ some s
      → 0 < length row
      → IsSelected row s
  build-SelectsSlots t j row s on h source masked at chosen some_slot =
      Holds-some (λ c. IsSelected row s) _
        (build-Holds is_pad i (λ c. IsSelected row s)
          λ c slots accepted selectors tested.
            let r = rank i.masks j in
            let (lo, hi, (a, ea, unpadded)) =
              contract-SelectsSlots c (tested on) r (take (i.num_spec + 1) row) s
                (source-row t j row source slots masked at)
                (pick_at i.masks (default i.num_accepted_tokens i.selectors) j selectors masked
                  chosen)
                (take-some i.num_spec row some_slot) in
            (lo, hi, (a, get-take (i.num_spec + 1) row (s - 1) ea, unpadded)))
        h

  -- With the tests on, so in every row of the contract, whichever table it is from.
  pub rows-SelectsSlots :
      {c : Contract A}
      → i.assert_contract ≡ true
      → build_gdn_spec_decode_state_contract is_pad i ≡ some c
      → SelectsSlots c
  rows-SelectsSlots on h =
      Holds-some SelectsSlots _
        (build-Holds is_pad i SelectsSlots
          λ c slots accepted selectors tested. contract-SelectsSlots c (tested on))
        h

-- Without the legacy switch, a request that is not decoded speculatively is read from the
-- slot of its last accepted token, if the count is at least 1 and at most num_spec + 1 and
-- the width of the table.
pub select_at :
    {A : Type 0} (t : Table A) (accepted : List ℕ) (num_spec r a : ℕ) (row : List A) {zs : List A}
    → select_gdn_state_block_ids false t (some accepted) num_spec ≡ some zs
    → get_elem? t.rows r ≡ some row
    → get_elem? accepted r ≡ some a
    → 1 ≤ a
    → a ≤ num_spec + 1
    → a ≤ t.width
    → get_elem? zs r ≡ get_elem? row (a - 1)
unfolding select_gdn_state_block_ids state_offset
select_at t accepted num_spec r a row h erow ea lo hi wide =
    let (z, e, at) = zip_rows_at _ t.rows accepted r h erow ea in
    at ∙ sym e ∙ ap (get_elem? row) omega arith
