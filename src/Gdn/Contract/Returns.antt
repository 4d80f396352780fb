-- ===== src/Gdn/Contract/Returns.antt =====
-- When the contract is returned: with the tests off, for the tensors of one batch.
use v100_skinny_unify.Prelude.{
  ℕ, zero, suc, ◌+◌, ◌-◌, ◌/◌, min, ◌≤◌, ◌≡◌, refl, sym, ◌∙◌, Bool, true, false, Option, none, some,
  List, [], ◌∷◌, arith,
}
use mathlib.Core.Path.{subst}
use v100_skinny_unify.Prelude.Lists.{length, get_elem?}
use v100_skinny_unify.Prelude.Options.{◌>>=◌, Holds, >>=-Holds, Holds-some}
use v100_skinny_unify.Gdn.Contract.{
  Table, Inputs, Contract, pick, invert, zip_rows, traverse, arange, pick_rows, columns, gather_row,
  gather_gdn_state_block_ids, first_column, state_offset, select_gdn_state_block_ids, default,
  from_current, from_cache_all, from_block_table, state_indices,
  build_gdn_spec_decode_state_contract,
}
use v100_skinny_unify.Gdn.Contract.Rows.{length-traverse, count, length-pick}
use v100_skinny_unify.Gdn.Contract.Totals.{
  Returns, Returns-some, >>=-Returns, AreWide, pick-Returns, pick-AreWide, get-Returns,
  traverse-Returns, traverse_wide-Returns, zip_rows-Returns, columns-AreWide,
}

-- A table with one row for each request of a batch and at least one column.
pub record IsTable {A : Type 0} (batch : ℕ) (t : Table A) : Type 0 where
  pub some_column : 1 ≤ t.width
  pub wide : AreWide t.width t.rows
  pub per_request : length t.rows ≡ batch

pick_rows-Returns :
    {A : Type 0} (mask : List Bool) (t : Table A)
    → IsTable (length mask) t
    → Returns (pick_rows mask t) × Holds (IsTable (count mask)) (pick_rows mask t)
unfolding pick_rows Holds
pick_rows-Returns mask t ok = (
  >>=-Returns _ _ (pick-Returns mask t.rows ok.per_request) λ rows e. tt,
  >>=-Holds (IsTable (count mask)) (pick mask t.rows) (λ rows. some (record t { rows = rows }))
      λ rows e. record {
        some_column = ok.some_column;
        wide = Holds-some (AreWide t.width) _ (pick-AreWide t.width mask t.rows ok.wide) e;
        per_request = (length-pick mask t.rows e).1;
      },
)

columns-IsTable :
    {A : Type 0} (n batch : ℕ) (t : Table A) → 1 ≤ n → IsTable batch t → IsTable batch (columns n t)
unfolding columns
columns-IsTable n batch t h ok =
    let (wide, rows) = columns-AreWide n t.width t.rows ok.wide in
    record {
      some_column = omega (arith, ok.some_column);
      wide = wide;
      per_request = rows ∙ ok.per_request;
    }

select-Returns :
    {A : Type 0} (legacy : Bool) (t : Table A) (accepted : List ℕ) (num_spec batch : ℕ)
    → IsTable batch t
    → length accepted ≡ batch
    → Returns (select_gdn_state_block_ids legacy t (some accepted) num_spec)
unfolding select_gdn_state_block_ids first_column state_offset
select-Returns true t accepted num_spec batch ok same =
    traverse_wide-Returns t.width _ t.rows ok.wide
      λ row e. get-Returns row 0 omega (arith, ok.some_column)
select-Returns false t accepted num_spec batch ok same =
    zip_rows-Returns t.width _ t.rows accepted ok.wide (same ∙ sym ok.per_request)
      λ row a e. get-Returns row _ omega (arith, ok.some_column)

gather-Returns :
    {A : Type 0} (t : Table A) (seq_lens : List ℕ) (block_size width batch : ℕ)
    → IsTable batch t
    → length seq_lens ≡ batch
    → Returns (gather_gdn_state_block_ids t seq_lens block_size width)
unfolding gather_gdn_state_block_ids gather_row
gather-Returns t seq_lens block_size width batch ok same =
    zip_rows-Returns t.width _ t.rows seq_lens ok.wide (same ∙ sym ok.per_request) λ row seq_len e.
      traverse-Returns _ (arange 0 width) λ offset. get-Returns row _ omega (arith, ok.some_column)

-- A gather of one column has rows of one slot.
length-arange : (start n : ℕ) → length (arange start n) ≡ n
unfolding arange
length-arange start zero = refl
length-arange start (suc n) = omega (arith, length-arange (start + 1) n)

zip_rows-AreWide :
    {A X Y : Type 0} (w : ℕ) (f : X → Y → Option (List A)) (xs : List X) (ys : List Y)
    → ((x : X) (y : Y) (row : List A) → f x y ≡ some row → length row ≡ w)
    → Holds (AreWide w) (zip_rows f xs ys)
unfolding zip_rows Holds
zip_rows-AreWide w f [] [] h = tt
zip_rows-AreWide w f [] (y ∷ ys) h = tt
zip_rows-AreWide w f (x ∷ xs) [] h = tt
zip_rows-AreWide w f (x ∷ xs) (y ∷ ys) h = >>=-Holds (AreWide w) _ _ λ row e.
    >>=-Holds (AreWide w) (zip_rows f xs ys) (λ rest. some (row ∷ rest))
      λ rest e'. (h x y row e, Holds-some (AreWide w) _ (zip_rows-AreWide w f xs ys h) e')

squeezed-Returns :
    {A : Type 0} (t : Table A) (seq_lens : List ℕ) (block_size : ℕ) (rows : List (List A))
    → gather_gdn_state_block_ids t seq_lens block_size 1 ≡ some rows
    → Returns (traverse (λ row. get_elem? row 0) rows)
unfolding gather_gdn_state_block_ids gather_row
squeezed-Returns t seq_lens block_size rows h =
    traverse_wide-Returns 1 _ rows
      (Holds-some (AreWide 1) _
        (zip_rows-AreWide 1 _ t.rows seq_lens λ row seq_len out e.
          length-traverse
            (λ offset. get_elem? row (min ((seq_len - 1) / block_size + offset) (t.width - 1)))
            (arange 0 1) e
          ∙ length-arange 0 1)
        h)
      λ row e. get-Returns row 0 (omega arith)

-- The tensors of one batch: tables of at least one column with a row for each request, and a length,
-- a count and a selector for each request.
pub record IsBatch {A : Type 0} (i : Inputs A) : Type 0 where
  pub block_table : IsTable (length i.masks) i.block_table
  pub current : (ids : Table A) → i.current ≡ some ids → IsTable (length i.masks) ids
  pub seq_lens : length i.seq_lens ≡ length i.masks
  pub accepted : length i.num_accepted_tokens ≡ length i.masks
  pub selectors : length (default i.num_accepted_tokens i.selectors) ≡ length i.masks

length-invert : (mask : List Bool) → length (invert mask) ≡ length mask
unfolding invert
length-invert [] = refl
length-invert (x ∷ mask) = omega (arith, length-invert mask)

module _ {A : Type 0} (is_pad : A → Bool) (i : Inputs A) (batch : IsBatch i) where
  rest_of :
      {X : Type 0} (xs : List X) → length xs ≡ length i.masks → Returns (pick (invert i.masks) xs)
  rest_of xs h = pick-Returns (invert i.masks) xs (h ∙ sym (length-invert i.masks))

  -- The slots of the others, selected from a table of the batch.
  rest_selected :
      (t : Table A) (spec : List (List A))
      → IsTable (length i.masks) t
      → Returns {X = List (List A) × List A} (
          pick_rows (invert i.masks) t >>= λ source.
          pick (invert i.masks) i.num_accepted_tokens >>= λ accepted.
          select_gdn_state_block_ids i.legacy source (some accepted) i.num_spec >>= λ non_spec.
          some (spec, non_spec))
  rest_selected t spec ok =
      let (found, tables) =
        pick_rows-Returns (invert i.masks) t
          (subst (λ n. IsTable n t) (sym (length-invert i.masks)) ok) in
      >>=-Returns _ _ found λ source e.
        >>=-Returns _ _ (rest_of i.num_accepted_tokens batch.accepted) λ accepted e1.
          >>=-Returns _ _
            (select-Returns i.legacy source accepted i.num_spec (count (invert i.masks))
              (Holds-some (IsTable (count (invert i.masks))) _ tables e)
              (length-pick (invert i.masks) _ e1).1)
            λ non_spec e2. tt

  from_current-Returns :
      (ids : Table A) → IsTable (length i.masks) ids → Returns (from_current is_pad i ids)
  unfolding from_current
  from_current-Returns ids ok =
      let cut = columns-IsTable (i.num_spec + 1) (length i.masks) ids (omega arith) ok in
      >>=-Returns _ _ (pick-Returns i.masks _ cut.per_request)
        λ spec e. rest_selected (columns (i.num_spec + 1) ids) spec cut

  from_block_table-Returns : Returns (from_block_table is_pad i)
  unfolding from_block_table
  from_block_table-Returns =
      let cut =
        columns-IsTable (i.num_spec + 1) (length i.masks) i.block_table (omega arith)
          batch.block_table in
      >>=-Returns _ _ (pick-Returns i.masks _ cut.per_request)
        λ spec e. rest_selected i.block_table spec batch.block_table

  -- The rows of the table and the lengths that a mask selects, gathered.
  gathered-Returns :
      (mask : List Bool) (width : ℕ)
      → length mask ≡ length i.masks
      → (table : Table A) → pick_rows mask i.block_table ≡ some table
      → (lens : List ℕ) → pick mask i.seq_lens ≡ some lens
      → Returns (gather_gdn_state_block_ids table lens i.block_size width)
  gathered-Returns mask width same table e lens e1 =
      let ok = subst (λ n. IsTable n i.block_table) (sym same) batch.block_table in
      gather-Returns table lens i.block_size width (count mask)
        (Holds-some (IsTable (count mask)) _ (pick_rows-Returns mask i.block_table ok).1 e)
        (length-pick mask _ e1).1

  from_cache_all-Returns : Returns (from_cache_all is_pad i)
  unfolding from_cache_all
  from_cache_all-Returns =
      let other_mask = invert i.masks in
      let same = length-invert i.masks in
      let ok = subst (λ n. IsTable n i.block_table) (sym same) batch.block_table in
      >>=-Returns _ _ (pick_rows-Returns i.masks i.block_table batch.block_table).0 λ table e.
        >>=-Returns _ _ (pick-Returns i.masks i.seq_lens batch.seq_lens) λ lens e1.
          >>=-Returns _ _ (gathered-Returns i.masks (i.num_spec + 1) refl table e lens e1)
            λ spec e2.
              >>=-Returns _ _ (pick_rows-Returns other_mask i.block_table ok).0 λ table' e3.
                >>=-Returns _ _ (rest_of i.seq_lens batch.seq_lens) λ lens' e4.
                  >>=-Returns _ _ (gathered-Returns other_mask 1 same table' e3 lens' e4)
                    λ other e5.
                      >>=-Returns _ _ (squeezed-Returns table' lens' i.block_size other e5)
                        λ non_spec e6. tt

  state_indices-Returns :
      (ids : Option (Table A)) → i.current ≡ ids → Returns (state_indices is_pad i ids)
  unfolding state_indices
  state_indices-Returns (some ids) e = from_current-Returns ids (batch.current ids e)
  state_indices-Returns none e = ground (arith, from_cache_all-Returns, from_block_table-Returns)

  -- With the tests off, the contract of a batch is returned: if the tables have at least one
  -- column and a row for each request, and there is a length, a count and a selector for each,
  -- no index is out of range, whichever table the slots are read from and whatever the lengths
  -- and the counts are.
  pub build-Returns :
      i.assert_contract ≡ false
      → (c : Contract A) × (build_gdn_spec_decode_state_contract is_pad i ≡ some c)
  unfolding build_gdn_spec_decode_state_contract
  build-Returns off = Returns-some _ (
      >>=-Returns _ _ (state_indices-Returns i.current refl) λ slots e.
        >>=-Returns _ _ (pick-Returns i.masks _ batch.accepted) λ accepted e1.
          >>=-Returns _ _ (pick-Returns i.masks _ batch.selectors) λ selectors e2. rw off tt)
