-- ===== src/Gdn/Eligible/Slots.antt =====
-- The fast build selects the slots that `build` takes as slices for the same request.
use v100_skinny_unify.Prelude.{
  ℕ, ◌+◌, ◌-◌, ◌/◌, ◌≡◌, refl, ap, ◌∙◌, Bool, true, false, Option, none, some, List, [], ◌∷◌, ltb,
  leb, if◌then◌else◌, arith, if_true, inl, inr,
}
use v100_skinny_unify.Skinny.Route.{is_some}
use v100_skinny_unify.Prelude.Lists.{length, get_or, get_elem?}
use v100_skinny_unify.Prelude.Options.{◌>>=◌, some_injective, if_cases}
use v100_skinny_unify.Gdn.Contract.{Table, zip_rows, gather_row, gather_gdn_state_block_ids}
use v100_skinny_unify.Gdn.Eligible.{FastInputs, first_row_from, by_table, fast_states}
use v100_skinny_unify.Gdn.Pure.{Step, slices, gathered_slots, by_lens, pure_states, all_true}

pub one_of : {X : Type 0} (xs : List X) → length xs ≡ 1 → (x : X) × (xs ≡ x ∷ [])
one_of [] h = absurd (omega arith)
one_of (x ∷ []) h = (x, refl)
one_of (x ∷ y ∷ xs) h = absurd (omega arith)

module _ {A : Type 0} where
  -- A batch of one request: the tables and lists have one row.
  pub record IsOne (i : FastInputs A) (accepted : List ℕ) : Type 0 where
    pub one_row : length i.block_table.rows ≡ 1
    pub one_len : length i.seq_lens ≡ 1
    pub one_current : (t : Table A) → i.current ≡ some t → length t.rows ≡ 1
    pub one_accepted : length accepted ≡ 1
    pub one_selector : (l : List ℕ) → i.selectors ≡ some l → length l ≡ 1

  -- What `build` is given for the same batch.
  abbrev pub step_of : FastInputs A → List ℕ → (legacy assert_contract chain_switch : Bool) → Step A
  step_of i accepted legacy assert_contract chain_switch = record {
    inputs = record {
      block_table = i.block_table;
      seq_lens = i.seq_lens;
      block_size = i.block_size;
      num_spec = i.num_spec;
      masks = true ∷ [];
      num_accepted_tokens = accepted;
      current = i.current;
      is_mamba_cache_all = i.is_mamba_cache_all;
      selectors = i.selectors;
      legacy = legacy;
      assert_contract = assert_contract;
    };
    seq_lens_cpu = i.seq_lens_cpu;
    has_parents = is_some i.parent_rows;
    chain_switch = chain_switch;
    for_cudagraph_capture = false;
    query_lens = (get_or i.query_start_loc 1 0 - get_or i.query_start_loc 0 0) ∷ [];
  }

  slices-first :
      (start width : ℕ) (t : Table A) (states : List A)
      → length t.rows ≡ 1
      → first_row_from start width t ≡ some states
      → slices 1 start width t ≡ states ∷ []
  unfolding slices first_row_from ◌>>=◌
  slices-first start width t states one e =
      let (row, rows) = one_of t.rows one in
      rw rows (ap (λ st. st ∷ []) (some_injective (rw rows at e)))

  module _ (i : FastInputs A) (accepted : List ℕ) (legacy : Bool) (asserts : Bool) (chain : Bool)
      (h : IsOne i accepted) (states : List A) where
    abbrev Selects : Option (Option (List (List A))) → Type 0
    Selects r = r ≡ some (some (states ∷ []))

    gathered-states :
        (do
          row ← get_elem? i.block_table.rows 0
          seq_len ← get_elem? i.seq_lens 0
          gather_row i.block_size (i.num_spec + 1) i.block_table.width seq_len row)
          ≡ some states
        → Selects (gathered_slots (step_of i accepted legacy asserts chain).inputs 1)
    unfolding gathered_slots gather_gdn_state_block_ids zip_rows ◌>>=◌
    gathered-states e =
        let (row, rows) = one_of i.block_table.rows h.one_row in
        let (len, lens) = one_of i.seq_lens h.one_len in
        let gather = rw (rows, lens) at e in rw (rows, lens, gather) refl

    lens-states :
        (lens : Option (List ℕ))
        → by_table i (i.num_spec + 1) true lens ≡ some states
        → Selects (by_lens (step_of i accepted legacy asserts chain).inputs 1 lens)
    unfolding by_lens ◌>>=◌
    lens-states none e = gathered-states e
    lens-states (some lens) e =
        let w = i.num_spec + 1 in
        let start = (get_or lens 0 0 - 1) / i.block_size in
        elim (if_cases (ltb i.block_table.width (start + w)) none
          (first_row_from start w i.block_table) states e) [
            | inl (past, never) ↦ absurd (ground arith)
            | inr (fits, first) ↦
                if_true (leb (start + w) i.block_table.width) _ _ (ground arith)
                ∙ ap (λ st. some (some st))
                    (slices-first start w i.block_table states h.one_row first)
          ]

    table-states :
        (all : Bool)
        → by_table i (i.num_spec + 1) all i.seq_lens_cpu ≡ some states
        → Selects (
            if all
            then by_lens (step_of i accepted legacy asserts chain).inputs 1 i.seq_lens_cpu
            else if leb (i.num_spec + 1) i.block_table.width
            then some (some (slices 1 0 (i.num_spec + 1) i.block_table))
            else some none)
    table-states true e = lens-states i.seq_lens_cpu e
    table-states false e =
        elim (if_cases (leb (i.num_spec + 1) i.block_table.width)
          (first_row_from 0 (i.num_spec + 1) i.block_table) none states e) [
            | inl (fits, first) ↦
                if_true (leb (i.num_spec + 1) i.block_table.width) _ _ fits
                ∙ ap (λ st. some (some st))
                    (slices-first 0 (i.num_spec + 1) i.block_table states h.one_row first)
            | inr (past, never) ↦ absurd (ground arith)
          ]

    states-Selects :
        (current : Option (Table A))
        → i.current ≡ current
        → fast_states i (i.num_spec + 1) current ≡ some states
        → Selects (pure_states (step_of i accepted legacy asserts chain) 1 current)
    unfolding fast_states pure_states all_true
    states-Selects none known e = table-states i.is_mamba_cache_all e
    states-Selects (some t) known e =
        ap (λ st. some (some st))
          (slices-first 0 (i.num_spec + 1) t states (h.one_current t known) e)

    -- The slots of a fast build are the slices that `build` takes for the same request.
    pub fast_states-Selects :
        fast_states i (i.num_spec + 1) i.current ≡ some states
        → Selects (pure_states (step_of i accepted legacy asserts chain) 1 i.current)
    fast_states-Selects e = states-Selects i.current refl e
