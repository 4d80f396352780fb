-- ===== src/Skinny/Prepack/Pack.antt =====
-- What the packing loops leave in the QPN buffers, cell by cell.
use v100_skinny_unify.Prelude.{ℕ, ◌+◌, ◌*◌, ◌/◌, ◌%◌, ◌<◌, ◌≡◌, ◌∙◌, arith}
use v100_skinny_unify.Tensor.{Buf}
use v100_skinny_unify.Tensor.Fills.{scatter_hits}
use v100_skinny_unify.Skinny.Layout.{ncol, lane_cell, cell, chunk_size}
use v100_skinny_unify.Skinny.Layout.Inverse.{
  tile_at, group_at, cell_facts, lane_cell_facts, chunk_size-pos,
}
use v100_skinny_unify.Skinny.Prepack.{pack_byte, gathered, prepack_codes, prepack_scales}

-- The byte that a cell of the packed codes is to hold.
packed_at : (groups k : ℕ) → Buf → Buf
packed_at groups k codes i =
    let x = i / 8 in
    let nibble = λ (j : ℕ). gathered k codes (tile_at groups x) (group_at groups x) (x % 32) j in
    pack_byte (nibble (2 * (i % 8))) (nibble (2 * (i % 8) + 1))

scale_at : ℕ → Buf → Buf
scale_at groups scales x = scales (ncol (tile_at groups x) (x % 32) * groups + group_at groups x)

module _ (tiles groups : ℕ) (first : Buf) (t g l : ℕ) (ht : t < tiles) (hg : g < groups)
    (hl : l < 32) where
  pub prepack_codes-cell :
      (k b : ℕ) (codes : Buf)
      → b < 8
      → prepack_codes tiles groups k codes first (cell groups 8 t g l b)
        ≡ pack_byte (gathered k codes t g l (2 * b)) (gathered k codes t g l (2 * b + 1))
  unfolding prepack_codes packed_at
  prepack_codes-cell k b codes hb =
      let c = cell_facts groups 8 t g l b hg hl hb in
      scatter_hits (packed_at groups k codes) tiles groups (chunk_size groups) 8 (cell groups 8)
        (λ t' g' l' b'.
          pack_byte (gathered k codes t' g' l' (2 * b')) (gathered k codes t' g' l' (2 * b' + 1)))
        (chunk_size-pos groups)
        (λ t' g' l' b' _ hg' hl' hb'.
          let c' = cell_facts groups 8 t' g' l' b' hg' hl' hb' in
          rw (c'.tile_at-cell, c'.group_at-cell, c'.lane_at-cell, c'.place_at-cell))
        first t g l b ht hg hl hb
      ∙ rw (c.tile_at-cell, c.group_at-cell, c.lane_at-cell, c.place_at-cell)

  pub prepack_scales-cell :
      (scales : Buf)
      → prepack_scales tiles groups scales first (lane_cell groups t g l)
        ≡ scales (ncol t l * groups + g)
  unfolding prepack_scales scale_at
  prepack_scales-cell scales =
      let c = lane_cell_facts groups t g l hg hl in
      scatter_hits (scale_at groups scales) tiles groups (chunk_size groups) 1
        (λ t' g' l' _. lane_cell groups t' g' l') (λ t' g' l' _. scales (ncol t' l' * groups + g'))
        (chunk_size-pos groups)
        (λ t' g' l' _ _ hg' hl' _.
          let c' = lane_cell_facts groups t' g' l' hg' hl' in
          rw (c'.tile_at-lane_cell, c'.group_at-lane_cell, c'.lane_at-lane_cell))
        first t g l 0 ht hg hl (omega arith)
      ∙ rw (c.tile_at-lane_cell, c.group_at-lane_cell, c.lane_at-lane_cell)
