-- ===== src/Gdn/Contract/Rows.antt =====
-- The rows of a contract.
use v100_skinny_unify.Prelude.{
  ◌∙◌, ℕ, ◌-◌, suc, ◌+◌, ◌≡◌, refl, Bool, true, false, Option, none, some, List, [], ◌∷◌, map,
  arith,
}
use v100_skinny_unify.Prelude.Lists.{length, get_elem?}
use v100_skinny_unify.Prelude.Options.{◌>>=◌, >>=-first, Holds, >>=-Holds, Holds-some, if-Holds}
use v100_skinny_unify.Gdn.Contract.{
  Table, Inputs, Contract, pick, invert, zip_rows, traverse, pick_rows, gather_gdn_state_block_ids,
  first_column, select_gdn_state_block_ids, default, from_current, from_cache_all, from_block_table,
  state_indices, ensure, all_in_range, none_padded, has_slots, slots_unpadded, current_unpadded,
  checked, build_gdn_spec_decode_state_contract,
}

-- The rows that a mask selects.
unfoldable pub count : List Bool → ℕ
count [] = 0
count (true ∷ mask) = suc (count mask)
count (false ∷ mask) = count mask

pub count-invert : (mask : List Bool) → count (invert mask) + count mask ≡ length mask
unfolding count invert
count-invert [] = refl
count-invert (true ∷ mask) = omega (arith, count-invert mask)
count-invert (false ∷ mask) = omega (arith, count-invert mask)

pub length-pick :
    {X : Type 0} (mask : List Bool) (xs : List X) {ys : List X}
    → pick mask xs ≡ some ys
    → (length mask ≡ length xs) × (length ys ≡ count mask)
unfolding pick count ◌>>=◌
length-pick [] [] h = ground arith
length-pick [] (x ∷ xs) h = ground arith
length-pick (true ∷ mask) [] h = ground arith
length-pick (false ∷ mask) [] h = ground arith
length-pick (true ∷ mask) (x ∷ xs) h =
    let (rest, e, q) = >>=-first (pick mask xs) (λ rest. some (x ∷ rest)) h in
    ground (arith, length-pick mask xs e)
length-pick (false ∷ mask) (x ∷ xs) h = ground (arith, length-pick mask xs h)

pub length-zip_rows :
    {X Y Z : Type 0} (f : X → Y → Option Z) (xs : List X) (ys : List Y) {zs : List Z}
    → zip_rows f xs ys ≡ some zs
    → (length zs ≡ length xs) × (length zs ≡ length ys)
unfolding zip_rows ◌>>=◌
length-zip_rows f [] [] h = ground arith
length-zip_rows f [] (y ∷ ys) h = ground arith
length-zip_rows f (x ∷ xs) [] h = ground arith
length-zip_rows f (x ∷ xs) (y ∷ ys) h =
    let (z, e, q) = >>=-first (f x y) (λ z. zip_rows f xs ys >>= λ rest. some (z ∷ rest)) h in
    let (rest, e', q') = >>=-first (zip_rows f xs ys) (λ rest. some (z ∷ rest)) q in
    ground (arith, length-zip_rows f xs ys e')

pub length-traverse :
    {X Y : Type 0} (f : X → Option Y) (xs : List X) {ys : List Y}
    → traverse f xs ≡ some ys
    → length ys ≡ length xs
unfolding traverse ◌>>=◌
length-traverse f [] h = ground arith
length-traverse f (x ∷ xs) h =
    let (y, e, q) = >>=-first (f x) (λ y. traverse f xs >>= λ rest. some (y ∷ rest)) h in
    let (rest, e', q') = >>=-first (traverse f xs) (λ rest. some (y ∷ rest)) q in
    ground (arith, length-traverse f xs e')

length-map : {X Y : Type 0} (f : X → Y) (xs : List X) → length (map f xs) ≡ length xs
length-map f [] = refl
length-map f (x ∷ xs) = omega (arith, length-map f xs)

length-pick_rows :
    {A : Type 0} (mask : List Bool) (t : Table A) {t' : Table A}
    → pick_rows mask t ≡ some t'
    → length t'.rows ≡ count mask
unfolding pick_rows
length-pick_rows mask t h =
    let (rows, e, q) = >>=-first (pick mask t.rows) (λ rows. some (record t { rows = rows })) h in
    ground (arith, length-pick mask t.rows e)

length-select :
    {A : Type 0} (legacy : Bool) (t : Table A) (accepted : Option (List ℕ)) (num_spec : ℕ)
    {zs : List A}
    → select_gdn_state_block_ids legacy t accepted num_spec ≡ some zs
    → length zs ≡ length t.rows
unfolding select_gdn_state_block_ids first_column
length-select true t accepted num_spec h = length-traverse _ t.rows h
length-select false t none num_spec h = length-traverse _ t.rows h
length-select false t (some accepted) num_spec h = (length-zip_rows _ t.rows accepted h).0

module _ {A : Type 0} (is_pad : A → Bool) (i : Inputs A) where
  -- One row of spec slots for each masked request, one slot for each of the others.
  abbrev pub SplitsRows : List (List A) × List A → Type 0
  SplitsRows (spec, non_spec) =
      (length spec ≡ count i.masks) × (length non_spec ≡ count (invert i.masks))

  from_current-SplitsRows : (ids : Table A) → Holds SplitsRows (from_current is_pad i ids)
  unfolding from_current Holds
  from_current-SplitsRows ids = >>=-Holds SplitsRows _ _ λ spec e.
      >>=-Holds SplitsRows _ _ λ source e1. >>=-Holds SplitsRows _ _ λ accepted e2.
        >>=-Holds SplitsRows _ _ λ non_spec e3. (
          (length-pick i.masks _ e).1,
          length-select i.legacy source _ i.num_spec e3 ∙ length-pick_rows _ _ e1,
        )

  from_block_table-SplitsRows : Holds SplitsRows (from_block_table is_pad i)
  unfolding from_block_table Holds
  from_block_table-SplitsRows = >>=-Holds SplitsRows _ _ λ spec e.
      >>=-Holds SplitsRows _ _ λ source e1. >>=-Holds SplitsRows _ _ λ accepted e2.
        >>=-Holds SplitsRows _ _ λ non_spec e3. (
          (length-pick i.masks _ e).1,
          length-select i.legacy source _ i.num_spec e3 ∙ length-pick_rows _ _ e1,
        )

  from_cache_all-SplitsRows : Holds SplitsRows (from_cache_all is_pad i)
  unfolding from_cache_all gather_gdn_state_block_ids Holds
  from_cache_all-SplitsRows = >>=-Holds SplitsRows _ _ λ spec_table e.
      >>=-Holds SplitsRows _ _ λ spec_lens e1. >>=-Holds SplitsRows _ _ λ spec e2.
        >>=-Holds SplitsRows _ _ λ other_table e3. >>=-Holds SplitsRows _ _ λ other_lens e4.
          >>=-Holds SplitsRows _ _ λ other e5. >>=-Holds SplitsRows _ _ λ non_spec e6. (
            (length-zip_rows _ spec_table.rows _ e2).0 ∙ length-pick_rows _ _ e,
            length-traverse _ other e6
                ∙ (length-zip_rows _ other_table.rows _ e5).0
                ∙ length-pick_rows _ _ e3,
          )

  state_indices-SplitsRows :
      (ids : Option (Table A)) → Holds SplitsRows (state_indices is_pad i ids)
  unfolding state_indices Holds
  state_indices-SplitsRows (some ids) = from_current-SplitsRows ids
  state_indices-SplitsRows none =
      ground (arith, from_cache_all-SplitsRows, from_block_table-SplitsRows)

  -- The rows of a contract that is returned: the masked requests have one row of slots, one
  -- accepted count and one selector each, the others one slot each.
  abbrev pub HasRows : Contract A → Type 0
  HasRows c =
      (length c.spec_state_indices ≡ count i.masks)
      × (length c.num_accepted_tokens ≡ count i.masks)
      × (length c.spec_state_slot_selectors ≡ count i.masks)
      × (length c.non_spec_state_indices + count i.masks ≡ length i.masks)

  ensure-Holds :
      {B : Type 0} (P : B → Type 0) (test : Bool) (next : Option B)
      → (test ≡ true → Holds P next)
      → Holds P (ensure test next)
  unfolding ensure Holds
  ensure-Holds P true next h = h refl
  ensure-Holds P false next h = tt

  current-Holds :
      (P : Contract A → Type 0) (ids : Option (Table A)) (c : Contract A)
      → P c
      → Holds P (current_unpadded is_pad i ids c)
  unfolding current_unpadded Holds
  current-Holds P none c h = h
  current-Holds P (some ids) c h =
      >>=-Holds P _ _ λ active e. ensure-Holds P _ (some c) λ unpadded. h

  -- What the tests establish of a contract that passes them.
  pub record IsChecked (c : Contract A) : Type 0 where
    pub accepted_in_range : all_in_range i.num_spec c.num_accepted_tokens ≡ true
    pub selectors_in_range : all_in_range i.num_spec c.spec_state_slot_selectors ≡ true
    pub selected :
        has_slots c.spec_state_indices ≡ true
        → (slots : List A) × (zip_rows
              (λ row s. get_elem? row (s - 1))
              c.spec_state_indices
              c.spec_state_slot_selectors
            ≡ some slots)
          × (none_padded is_pad slots ≡ true)

  pub checked-Holds :
      (P : Contract A → Type 0) (c : Contract A)
      → (IsChecked c → P c)
      → Holds P (checked is_pad i c)
  unfolding checked slots_unpadded
  checked-Holds P c h = ensure-Holds P _ _ λ e1. ensure-Holds P _ _ λ e2.
      ensure-Holds P _ _ λ accepted. ensure-Holds P _ _ λ selectors.
        if-Holds P (has_slots c.spec_state_indices)
          (slots_unpadded is_pad i c (current_unpadded is_pad i i.current c))
          (current_unpadded is_pad i i.current c)
          (λ (there : has_slots c.spec_state_indices ≡ true). >>=-Holds P _ _ λ slots e.
            ensure-Holds P _ _ λ unpadded. current-Holds P i.current c (
              h (record {
                accepted_in_range = accepted;
                selectors_in_range = selectors;
                selected = λ _. (slots, e, unpadded);
              })))
          (λ (empty : has_slots c.spec_state_indices ≡ false). current-Holds P i.current c (
            h (record {
              accepted_in_range = accepted;
              selectors_in_range = selectors;
              selected = λ there. absurd (ground arith);
            })))

  -- A contract that is built, with the tests on or off.
  pub build-Holds :
      (P : Contract A → Type 0)
      → ((c : Contract A)
          → state_indices is_pad i i.current ≡ some (c.spec_state_indices, c.non_spec_state_indices)
          → pick i.masks i.num_accepted_tokens ≡ some c.num_accepted_tokens
          → pick i.masks (default i.num_accepted_tokens i.selectors)
            ≡ some c.spec_state_slot_selectors
          → (i.assert_contract ≡ true → IsChecked c)
          → P c)
      → Holds P (build_gdn_spec_decode_state_contract is_pad i)
  unfolding build_gdn_spec_decode_state_contract Holds
  build-Holds P h = >>=-Holds P _ _ λ slots e. >>=-Holds P _ _ λ accepted e1.
      >>=-Holds P _ _ λ selectors e2.
        let c : Contract A = record {
          spec_state_indices = slots.0;
          non_spec_state_indices = slots.1;
          num_accepted_tokens = accepted;
          spec_state_slot_selectors = selectors;
        } in
        if-Holds P i.assert_contract (checked is_pad i c) (some c)
          (λ (on : i.assert_contract ≡ true). checked-Holds P c (λ good. h c e e1 e2 (λ _. good)))
          (λ (off : i.assert_contract ≡ false). h c e e1 e2 (λ on. absurd (ground arith)))

  -- A contract that is returned has, for each masked request, one row of slots, one accepted count
  -- and one selector, and one slot for each of the others, whichever table it is built from.
  pub build_rows :
      {c : Contract A} → build_gdn_spec_decode_state_contract is_pad i ≡ some c → HasRows c
  build_rows h =
      Holds-some HasRows _
        (build-Holds HasRows λ c slots accepted selectors tested.
          let rows = Holds-some SplitsRows _ (state_indices-SplitsRows i.current) slots in
          (
            rows.0,
            (length-pick i.masks _ accepted).1,
            (length-pick i.masks _ selectors).1,
            omega (arith, rows.1, count-invert i.masks),
          ))
        h
