-- ===== src/Gdn/Pure.antt =====
-- The speculative part of `GDNAttentionMetadataBuilder.build` of fork_patches/gdn_attn.py for a batch
-- with speculative requests: `pure_ddtree_spec_fast_path`, which takes the slots of a batch of such
-- requests alone as slices, and the contract for the others. An exception is `none`; where the slices
-- are not taken, `fast_path_state_block_ids` being None, the inner result is `none`.
use v100_skinny_unify.Prelude.{
  ℕ, ◌+◌, ◌-◌, ◌/◌, Bool, true, false, not, Option, none, some, List, [], ◌∷◌, map, ltb, leb, ◌==◌,
  ◌&&◌, ◌||◌, if◌then◌else◌,
}
use v100_skinny_unify.Prelude.Lists.{length, get_or, take, drop}
use v100_skinny_unify.Prelude.Options.{◌>>=◌}
use v100_skinny_unify.Gdn.Contract.{
  Table, Inputs, Contract, pick, invert, gather_gdn_state_block_ids, default,
  build_gdn_spec_decode_state_contract,
}
use v100_skinny_unify.Gdn.Contract.Rows.{count}

-- The arguments of the contract, and what else is read: whether there are parents of a tree, the
-- switch VLLM_SM70_GDN_CHAIN_SPEC_FAST_BUILD, for_cudagraph_capture, and the lengths of the queries.
pub record Step (A : Type 0) : Type 0 where
  pub inputs : Inputs A
  pub seq_lens_cpu : Option (List ℕ)
  pub has_parents : Bool
  pub chain_switch : Bool
  pub for_cudagraph_capture : Bool
  pub query_lens : List ℕ

-- The tensors of the speculative requests.
pub record SpecPart (A : Type 0) : Type 0 where
  pub states : List (List A)
  pub accepted : List ℕ
  pub selectors : List ℕ

unfoldable pub all_true : List Bool → Bool
all_true [] = true
all_true (b ∷ mask) = b && all_true mask

-- (lens == 0).sum()
unfoldable pub count_zeros : List ℕ → ℕ
count_zeros [] = 0
count_zeros (l ∷ lens) = let rest = count_zeros lens in if l == 0 then rest + 1 else rest

module _ {A : Type 0} where
  abbrev pub taken : Option (List (List A)) → Option (Option (List (List A)))
  taken none = none
  taken (some rows) = some (some rows)

  -- t[:n, start:start + width]
  unfoldable pub slices : ℕ → ℕ → ℕ → Table A → List (List A)
  slices n start width t = map (λ row. take width (drop start row)) (take n t.rows)

  unfoldable pub gathered_slots : Inputs A → ℕ → Option (Option (List (List A)))
  unfolding gather_gdn_state_block_ids
  gathered_slots i n = taken (
      gather_gdn_state_block_ids (record i.block_table { rows = take n i.block_table.rows })
        (take n i.seq_lens) i.block_size (i.num_spec + 1))

  unfoldable pub by_lens : Inputs A → ℕ → Option (List ℕ) → Option (Option (List (List A)))
  unfolding slices gathered_slots
  by_lens i n none = gathered_slots i n
  by_lens i n (some lens) =
      if n == 1
      then (let start = (get_or lens 0 0 - 1) / i.block_size in
          if leb (start + (i.num_spec + 1)) i.block_table.width
          then some (some (slices 1 start (i.num_spec + 1) i.block_table))
          else some none)
      else gathered_slots i n

  unfoldable pub pure_states : Step A → ℕ → Option (Table A) → Option (Option (List (List A)))
  unfolding slices by_lens all_true
  pure_states s n (some ids) = some (some (slices n 0 (s.inputs.num_spec + 1) ids))
  pure_states s n none =
      let i = s.inputs in
      if not (all_true i.masks)
      then some none
      else if i.is_mamba_cache_all
      then by_lens i n s.seq_lens_cpu
      else if leb (i.num_spec + 1) i.block_table.width
      then some (some (slices n 0 (i.num_spec + 1) i.block_table))
      else some none

  -- pure_ddtree_spec_fast_path_candidate, for the lengths of the other requests
  unfoldable pub is_candidate : Step A → List ℕ → Bool
  unfolding all_true count count_zeros
  is_candidate s others =
      (s.has_parents || s.chain_switch && all_true s.inputs.masks)
      && ltb 0 (count s.inputs.masks)
      && length others == count_zeros others

module _ {A : Type 0} (is_pad : A → Bool) (pad : A) where
  -- torch.full_like(spec_state_indices_tensor, PAD_SLOT_ID) in a capture
  abbrev pub in_capture : Bool → List (List A) → List (List A)
  in_capture true rows = map (λ row. map (λ _. pad) row) rows
  in_capture false rows = rows

  abbrev pub part_of : Step A → Option (Contract A) → Option (SpecPart A)
  part_of s none = none
  part_of s (some c) = some (record {
    states = in_capture s.for_cudagraph_capture c.spec_state_indices;
    accepted = c.num_accepted_tokens;
    selectors = c.spec_state_slot_selectors;
  })

  abbrev pub from_slices : Step A → ℕ → Option (List (List A)) → Option (SpecPart A)
  from_slices s n (some rows) =
      let accepted = take n s.inputs.num_accepted_tokens in
      some (record {
        states = in_capture s.for_cudagraph_capture rows;
        accepted = accepted;
        selectors = take n (default s.inputs.num_accepted_tokens s.inputs.selectors);
      })
  from_slices s n none = part_of s (build_gdn_spec_decode_state_contract is_pad s.inputs)

  unfoldable pub spec_part : Step A → Option (SpecPart A)
  unfolding ◌>>=◌ pick invert is_candidate pure_states
  spec_part s = pick (invert s.inputs.masks) s.query_lens >>= λ others.
      if is_candidate s others
      then (pure_states s (count s.inputs.masks) s.inputs.current
          >>= from_slices s (count s.inputs.masks))
      else part_of s (build_gdn_spec_decode_state_contract is_pad s.inputs)
