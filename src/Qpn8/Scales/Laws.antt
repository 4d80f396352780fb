-- ===== src/Qpn8/Scales/Laws.antt =====
-- The tile scales against the row scales of the reference.
use v100_skinny_unify.Prelude.{
  ℕ, ◌+◌, ◌-◌, ◌/◌, ◌%◌, ◌≤◌, ◌<◌, ◌≡◌, refl, sym, ap, ◌∙◌, Option, none, some, List, [], ◌∷◌,
  arith, ltb, Bool-cases, ltb→lt, ltb→le, inl, inr, ◌⊎◌,
}
use mathlib.Core.Path.{fun_ext}
use v100_skinny_unify.Prelude.Lists.{length, get_elem?}
use v100_skinny_unify.Qpn8.Scales.{
  Outcome, done, declined, raised, sum, scale_for, fill, tile_round, tile_loop, finish, tile_scales,
  slice_scale, row_scale, converted, reference_scale,
}

done_injective : {A : Type 0} {a b : A} → done a ≡ done b → a ≡ b
done_injective h = cc

-- A fill writes its slice and nothing else.
fill_inside :
    {S : Type 0} (v : S) (lo hi : ℕ) (out : ℕ → S) (t : ℕ)
    → lo ≤ t
    → t < hi
    → fill v lo hi out t ≡ v
unfolding fill
fill_inside v lo hi out t p q = ground arith

fill_before :
    {S : Type 0} (v : S) (lo hi : ℕ) (out : ℕ → S) (t : ℕ) → t < lo → fill v lo hi out t ≡ out t
unfolding fill
fill_before v lo hi out t p = ground arith

module _ {S : Type 0} (times256 : S → S) (scales : List S) where
  -- A round that succeeded has filled the tiles of one slice.
  record Round (o : Option S) (off wd : ℕ) (out out' : ℕ → S) : Type 0 where
    scale : S
    found : o ≡ some scale
    start : off % 32 ≡ 0
    width : wd % 32 ≡ 0
    filled : out' ≡ fill (times256 scale) (off / 32) ((off + wd) / 32) out

  tile_round-Round :
      (o : Option S) (off wd : ℕ) (out : ℕ → S) {out' : ℕ → S}
      → tile_round times256 o off wd out ≡ done out'
      → Round o off wd out out'
  unfolding tile_round
  tile_round-Round none off wd out h = cc
  tile_round-Round (some sc) off wd out h = record {
    scale = sc;
    found = refl;
    start = ground arith;
    width = ground arith;
    filled = ground arith;
  }

  record LoopStep (i off wd : ℕ) (ws : List ℕ) (out : ℕ → S) (end : ℕ × (ℕ → S)) : Type 0 where
    next : ℕ → S
    round : Round (scale_for scales i) off wd out next
    rest : tile_loop times256 scales (i + 1) (off + wd) ws next ≡ done end

  loop_step :
      (i off wd : ℕ) (ws : List ℕ) (out : ℕ → S) {end : ℕ × (ℕ → S)}
      → tile_loop times256 scales i off (wd ∷ ws) out ≡ done end
      → LoopStep i off wd ws out end
  unfolding tile_loop
  loop_step i off wd ws out {end} h =
      go (tile_round times256 (scale_for scales i) off wd out) refl h
    where
      go :
          (x : Outcome (ℕ → S))
          → tile_round times256 (scale_for scales i) off wd out ≡ x
          → (elim x [
            | done out' ↦ tile_loop times256 scales (i + 1) (off + wd) ws out'
            | declined ↦ declined
            | raised ↦ raised
          ])
            ≡ done end
          → LoopStep i off wd ws out end
      go (done out') e q = record { next = out'; round = tile_round-Round _ off wd out e; rest = q }
      go declined e q = cc
      go raised e q = cc

  -- The tiles before the start of the loop keep their scales.
  loop_keeps :
      (i off : ℕ) (ws : List ℕ) (out : ℕ → S) {e : ℕ} {out' : ℕ → S} (t : ℕ)
      → tile_loop times256 scales i off ws out ≡ done (e, out')
      → t < off / 32
      → out' t ≡ out t
  unfolding tile_loop
  loop_keeps i off [] out t h lt = ap (λ p. p.1 t) (sym (done_injective h))
  loop_keeps i off (wd ∷ ws) out t h lt =
      let step = loop_step i off wd ws out h in
      loop_keeps (i + 1) (off + wd) ws step.next t step.rest (omega arith)
      ∙ ap (λ f. f t) step.round.filled
      ∙ fill_before (times256 step.round.scale) (off / 32) ((off + wd) / 32) out t lt

  -- The loop ends at the sum of the slices.
  loop_end :
      (i off : ℕ) (ws : List ℕ) (out : ℕ → S) {e : ℕ} {out' : ℕ → S}
      → tile_loop times256 scales i off ws out ≡ done (e, out')
      → e ≡ off + sum ws
  unfolding tile_loop
  loop_end i off [] out h = omega (arith, ap (λ (p : ℕ × (ℕ → S)). p.0) (done_injective h))
  loop_end i off (wd ∷ ws) out h = omega (
    arith,
    loop_end (i + 1) (off + wd) ws (loop_step i off wd ws out h).next
        (loop_step i off wd ws out h).rest,
  )

  -- The scale of a row's slice, and the tile of the row scaled by it.
  record Scaled (pick : Option S) (value : S) : Type 0 where
    scale : S
    picked : pick ≡ some scale
    scaled : value ≡ times256 scale

  loop_Scaled :
      (i off : ℕ) (ws : List ℕ) (out : ℕ → S) {e : ℕ} {out' : ℕ → S} (r : ℕ)
      → tile_loop times256 scales i off ws out ≡ done (e, out')
      → off % 32 ≡ 0
      → off ≤ r
      → r < off + sum ws
      → Scaled (slice_scale (scale_for scales) i ws (r - off)) (out' (r / 32))
  unfolding slice_scale
  loop_Scaled i off [] out r h aligned lo hi = absurd (omega arith)
  loop_Scaled i off (wd ∷ ws) out {e} {out'} r h aligned lo hi =
      let step = loop_step i off wd ws out h in
      elim (Bool-cases (ltb (r - off) wd)) [
        | inl here ↦
            let last : r / 32 < (off + wd) / 32 =
              omega (arith, ltb→lt (r - off) wd here, step.round.start, step.round.width) in
            record {
              scale = step.round.scale;
              picked = rw here step.round.found;
              scaled =
                  loop_keeps (i + 1) (off + wd) ws step.next (r / 32) step.rest last
                  ∙ ap (λ f. f (r / 32)) step.round.filled
                  ∙ fill_inside (times256 step.round.scale) (off / 32) ((off + wd) / 32) out
                      (r / 32) (omega arith) last;
            }
        | inr later ↦ rw later (
            let e : r - off - wd ≡ r - (off + wd) = omega arith in
            rw e (
              loop_Scaled (i + 1) (off + wd) ws step.next r step.rest
                (omega (arith, step.round.start, step.round.width))
                (omega (arith, ltb→le (r - off) wd later)) (omega arith)))
      ]

-- The scales are returned only if the slices end at the last row.
finish_done :
    {S : Type 0} (times256 : S → S) (n : ℕ) (o : Outcome (ℕ × (ℕ → S))) {out : ℕ → S}
    → finish times256 n o ≡ done out
    → o ≡ done (n, out)
unfolding finish
finish_done times256 n (done (off, f)) h = ground arith
finish_done times256 n declined h = cc
finish_done times256 n raised h = cc

-- A found scale is that of some slice.
slice_scale-pick :
    {S : Type 0} (pick : ℕ → Option S) (i : ℕ) (ws : List ℕ) (r : ℕ) {s : S}
    → slice_scale pick i ws r ≡ some s
    → (j : ℕ) × (pick j ≡ some s)
unfolding slice_scale
slice_scale-pick pick i [] r h = cc
slice_scale-pick pick i (wd ∷ ws) r h = elim (Bool-cases (ltb r wd)) [
  | inl here ↦ (i, rw here at h)
  | inr later ↦ slice_scale-pick pick (i + 1) ws (r - wd) (rw later at h)
]

-- With two or more scales a round takes the scale of its slice.
scale_for_many :
    {S : Type 0} (x y : S) (rest : List S) (i : ℕ)
    → scale_for (x ∷ y ∷ rest) i ≡ get_elem? (x ∷ y ∷ rest) i
unfolding scale_for
scale_for_many x y rest i = ground arith

module _ {S : Type 0} (max_of : List S → S) where
  -- The scale that the reference takes for a row is the one that the slice's round takes.
  picked-reference :
      (widths : List ℕ) (scales : List S) (r : ℕ) {s : S}
      → (length widths ≡ length scales) ⊎ (length scales ≡ 1)
      → ((s : S) → max_of (s ∷ []) ≡ s)
      → slice_scale (scale_for scales) 0 widths r ≡ some s
      → row_scale max_of widths scales r ≡ some s
  unfolding row_scale scale_for
  picked-reference widths [] r fits single h =
      let (j, e) = slice_scale-pick (scale_for {S = S} []) 0 widths r h in cc
  picked-reference widths (x ∷ []) r fits single h =
      let (j, e) = slice_scale-pick (scale_for (x ∷ [])) 0 widths r h in ap some (single x) ∙ e
  picked-reference widths (x ∷ y ∷ rest) r (inr one) single h = absurd (omega arith)
  picked-reference widths (x ∷ y ∷ rest) r (inl same) single h =
      ground (arith, rw (fun_ext (scale_for_many x y rest)) at h)

module _ {S H : Type 0} (times256 : S → S) (cast : S → H) (max_of : List S → S) where
  -- If the tile scales are made, from one scale for all slices or one for each, then the slices add
  -- up to the rows, and for every row there is one scale of the layer that both read: the tile of 32
  -- rows that holds it has that scale times 256, and the reference multiplies the row by that scale
  -- as it is converted to the type of the input. The maximum of one scale is taken to be that scale.
  pub tile_scales-reference :
      (widths : List ℕ) (scales : List S) (n r : ℕ) (out₀ : ℕ → S) {out : ℕ → S}
      → (length widths ≡ length scales) ⊎ (length scales ≡ 1)
      → ((s : S) → max_of (s ∷ []) ≡ s)
      → tile_scales times256 widths scales n out₀ ≡ done out
      → r < n
      → (sum widths ≡ n)
        × ((s : S) × (reference_scale cast max_of widths scales r ≡ some (cast s))
            × (out (r / 32) ≡ times256 s))
  unfolding tile_scales reference_scale
  tile_scales-reference widths scales n r out₀ {out} fits single h hr =
      let loop = finish_done times256 n (tile_loop times256 scales 0 0 widths out₀) h in
      let end = loop_end times256 scales 0 0 widths out₀ loop in
      let row =
        loop_Scaled times256 scales 0 0 widths out₀ r loop refl (omega arith) (omega arith) in
      (
        omega arith,
        (
          row.scale,
          ap (converted cast) (
              picked-reference max_of widths scales r fits single
                (rw (let e : r - 0 ≡ r = omega arith in e) at row.picked)),
          row.scaled,
        ),
      )
