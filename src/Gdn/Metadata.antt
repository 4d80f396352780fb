-- ===== src/Gdn/Metadata.antt =====
-- `gdn_spec_metadata_tensors` and the registry behind it, of fork_patches/gdn_attn.py. A layer's
-- name is a number, and a device too; `device` is the attribute of a tensor.
pub mod Registry
use v100_skinny_unify.Prelude.{
  ℕ, Bool, true, false, Option, none, some, List, [], ◌∷◌, ◌==◌, ◌||◌, if◌then◌else◌,
}

-- The fields of GDNAttentionMetadata that the tensors are made of.
pub record SpecMetadata (T : Type 0) : Type 0 where
  pub non_spec_query_start_loc : Option T
  pub non_spec_state_indices : Option T
  pub spec_query_start_loc : Option T
  pub spec_state_indices : Option T
  pub spec_token_indx : Option T
  pub non_spec_token_indx : Option T
  pub spec_sequence_masks : Option T
  pub num_accepted_tokens : Option T
  pub spec_state_slot_selectors : Option T

pub record SpecTensors (T : Type 0) : Type 0 where
  pub non_spec_starts : T
  pub non_spec_states : T
  pub spec_starts : T
  pub spec_states : T
  pub spec_tokens : T
  pub non_spec_tokens : T
  pub masks : T
  pub accepted : T
  pub selectors : T

abbrev pub or_empty : {T : Type 0} → T → Option T → T
or_empty e none = e
or_empty e (some t) = t

-- spec_state_slot_selectors, or else num_accepted_tokens
abbrev pub or_accepted : {T : Type 0} → Option T → Option T → Option T
or_accepted (some t) accepted = some t
or_accepted none accepted = accepted

-- `empty_i32` and `empty_bool` are torch.empty(0) on a device.
module _ {T : Type 0} (empty_i32 empty_bool : ℕ → T) where
  unfoldable pub empty_spec_tensors : ℕ → SpecTensors T
  empty_spec_tensors d = record {
    non_spec_starts = empty_i32 d;
    non_spec_states = empty_i32 d;
    spec_starts = empty_i32 d;
    spec_states = empty_i32 d;
    spec_tokens = empty_i32 d;
    non_spec_tokens = empty_i32 d;
    masks = empty_bool d;
    accepted = empty_i32 d;
    selectors = empty_i32 d;
  }

  unfoldable pub gdn_spec_metadata_tensors : Option (SpecMetadata T) → ℕ → SpecTensors T
  gdn_spec_metadata_tensors none d = empty_spec_tensors d
  gdn_spec_metadata_tensors (some m) d = record {
    non_spec_starts = or_empty (empty_i32 d) m.non_spec_query_start_loc;
    non_spec_states = or_empty (empty_i32 d) m.non_spec_state_indices;
    spec_starts = or_empty (empty_i32 d) m.spec_query_start_loc;
    spec_states = or_empty (empty_i32 d) m.spec_state_indices;
    spec_tokens = or_empty (empty_i32 d) m.spec_token_indx;
    non_spec_tokens = or_empty (empty_i32 d) m.non_spec_token_indx;
    masks = or_empty (empty_bool d) m.spec_sequence_masks;
    accepted = or_empty (empty_i32 d) m.num_accepted_tokens;
    selectors =
        or_empty (empty_i32 d) (or_accepted m.spec_state_slot_selectors m.num_accepted_tokens);
  }

-- _GDN_SPEC_METADATA_TENSOR_REGISTRY: the last entry of a name stands first.
abbrev pub Registry : Type 0 → Type 0
Registry T = List (ℕ × SpecTensors T)

unfoldable pub lookup : {T : Type 0} → Registry T → ℕ → Option (SpecTensors T)
lookup [] name = none
lookup ((key, tensors) ∷ rest) name = if key == name then some tensors else lookup rest name

-- for layer_name in layer_names: registry[layer_name] = tensors
unfoldable pub register_tensors : {T : Type 0} → List ℕ → SpecTensors T → Registry T → Registry T
register_tensors [] tensors registry = registry
register_tensors (name ∷ names) tensors registry =
    register_tensors names tensors ((name, tensors) ∷ registry)

module _ {T : Type 0} (device : T → ℕ) (empty_i32 empty_bool : ℕ → T) where
  -- Tensors of another device, or none, are replaced by empty ones.
  unfoldable pub on_device : Option (SpecTensors T) → ℕ → SpecTensors T
  on_device none d = empty_spec_tensors empty_i32 empty_bool d
  on_device (some tensors) d =
      if device tensors.non_spec_starts == d
      then tensors
      else empty_spec_tensors empty_i32 empty_bool d

  unfoldable pub registered_tensors : Registry T → ℕ → ℕ → SpecTensors T
  registered_tensors registry name d = on_device (lookup registry name) d
