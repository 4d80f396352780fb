-- ===== src/Gdn/Metadata/Registry.antt =====
-- What is read back from the registry.
use v100_skinny_unify.Prelude.{
  ℕ, ◌≡◌, refl, ap, ◌∙◌, Bool, false, some, List, [], ◌∷◌, ◌==◌, ◌||◌, if◌then◌else◌, arith,
}
use v100_skinny_unify.Gdn.Metadata.{
  SpecTensors, Registry, empty_spec_tensors, lookup, register_tensors, on_device,
  registered_tensors,
}

abbrev pub is_listed : List ℕ → ℕ → Bool
is_listed [] name = false
is_listed (n ∷ ns) name = n == name || is_listed ns name

lookup-register_tensors :
    {T : Type 0} (names : List ℕ) (tensors : SpecTensors T) (registry : Registry T) (name : ℕ)
    → lookup (register_tensors names tensors registry) name
      ≡ (if is_listed names name then some tensors else lookup registry name)
unfolding lookup register_tensors
lookup-register_tensors [] tensors registry name = refl
lookup-register_tensors (n ∷ ns) tensors registry name =
    lookup-register_tensors ns tensors ((n, tensors) ∷ registry) name ∙ ground arith

module _ {T : Type 0} (device : T → ℕ) (empty_i32 empty_bool : ℕ → T) where
  -- After the tensors of a step have been registered for some layers, each of those layers reads
  -- them if they are on its device, and empty ones if not; every other layer reads what it did.
  pub registered-register_tensors :
      (names : List ℕ) (tensors : SpecTensors T) (registry : Registry T) (name d : ℕ)
      → registered_tensors device empty_i32 empty_bool
          (register_tensors names tensors registry)
          name
          d
        ≡ (if is_listed names name
            then (if device tensors.non_spec_starts == d
                then tensors
                else empty_spec_tensors empty_i32 empty_bool d)
            else registered_tensors device empty_i32 empty_bool registry name d)
  unfolding registered_tensors on_device
  registered-register_tensors names tensors registry name d =
      ap (λ o. on_device device empty_i32 empty_bool o d)
        (lookup-register_tensors names tensors registry name)
      ∙ ground arith

  -- What a layer reads is on the device it asks for, if a new empty tensor is on its device.
  pub registered-device :
      ((d : ℕ) → device (empty_i32 d) ≡ d)
      → (registry : Registry T) (name d : ℕ)
      → device (registered_tensors device empty_i32 empty_bool registry name d).non_spec_starts ≡ d
  unfolding registered_tensors on_device empty_spec_tensors
  registered-device on registry name d = ground (arith, on d)
