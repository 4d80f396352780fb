-- ===== src/Tensor/Fills.antt =====
-- Loops of writes that agree with a target buffer: whatever was in the buffer before, the cells
-- that they hit hold the target afterwards. No write has to be the only one at its cell.
use native.Mathlib.Nat.{div-mul-le_self, lt-div-mul-add}
use v100_skinny_unify.Prelude.Division.{block_lt}
use v100_skinny_unify.Prelude.{
  ◌+◌, ◌*◌, ◌-◌, ◌/◌, ◌≤◌, min, ℕ, zero, suc, ◌<◌, ◌≡◌, refl, ◌⊎◌, inl, arith,
}
use mathlib.Core.Path.{subst}
use native.Mathlib.Decide.{dec_lt}
use v100_skinny_unify.Tensor.{Buf, write, for_range, for_chunks, scatter}

pub record Fills (target : Buf) (Hit : ℕ → Type 0) (act : Buf → Buf) : Type 0 where
  pub hits : (m : Buf) (a : ℕ) → Hit a → act m a ≡ target a
  pub keeps : (m : Buf) (a : ℕ) → (act m a ≡ m a) ⊎ (act m a ≡ target a)

pub Fills-write :
    {target : Buf} (a v : ℕ) → v ≡ target a → Fills target (λ b. b ≡ a) (λ m. write m a v)
unfolding write
Fills-write {target} a v e = record { hits = λ m b h. ground arith; keeps = λ m b. ground arith }

-- One round after the others.
keeps_trans : {x y z t : ℕ} → (x ≡ y) ⊎ (x ≡ t) → (y ≡ z) ⊎ (y ≡ t) → (x ≡ z) ⊎ (x ≡ t)
keeps_trans p q = grind arith

kept : {x y t : ℕ} → (x ≡ y) ⊎ (x ≡ t) → y ≡ t → x ≡ t
kept p q = ground arith

module _ {target : Buf} {Hit : ℕ → ℕ → Type 0} {body : ℕ → Buf → Buf} where
  pub Fills-for_range :
      (n : ℕ)
      → ((i : ℕ) → i < n → Fills target (Hit i) (body i))
      → Fills target (λ a. (i : ℕ) × (i < n) × Hit i a) (for_range n body)
  unfolding for_range
  Fills-for_range zero each = record {
    hits = λ m a (i, h, _). absurd (omega arith);
    keeps = λ m a. inl refl;
  }
  Fills-for_range (suc n) each =
      let before = Fills-for_range n (λ i h. each i (omega arith)) in
      let last = each n (omega arith) in
      record {
        hits = λ m a (i, h, hit). elim (dec_lt i n) [
          | yes p ↦ kept (last.keeps (for_range n body m) a) (before.hits m a (i, p, hit))
          | no q ↦
              last.hits (for_range n body m) a
                (subst (λ j. Hit j a) {x = i} {y = n} (omega arith) hit)
        ];
        keeps = λ m a. keeps_trans (last.keeps (for_range n body m) a) (before.keeps m a);
      }

module _ {target : Buf} where
  Fills-mono :
      {Hit Hit' : ℕ → Type 0} {act : Buf → Buf}
      → ((a : ℕ) → Hit' a → Hit a)
      → Fills target Hit act
      → Fills target Hit' act
  Fills-mono sub f = record { hits = λ m a h. f.hits m a (sub a h); keeps = f.keeps }

  Fills-for_chunks :
      (total chunk : ℕ) {Hit : ℕ → ℕ → Type 0} {body : ℕ → Buf → Buf}
      → 0 < chunk
      → ((t : ℕ) → t < total → Fills target (Hit t) (body t))
      → Fills target (λ a. (t : ℕ) × (t < total) × Hit t a) (for_chunks total chunk body)
  unfolding for_chunks
  Fills-for_chunks total chunk {Hit} {body} pos each =
      Fills-mono
        (λ a (t, h, hit).
          let low : t / chunk * chunk ≤ t = div-mul-le_self t chunk in
          let top : t < t / chunk * chunk + chunk = lt-div-mul-add pos in
          (
            t / chunk,
            block_lt t total chunk pos h,
            (
              t - t / chunk * chunk,
              omega arith,
              subst (λ s. Hit s a) {x = t} {y = t / chunk * chunk + (t - t / chunk * chunk)}
                  (omega arith) hit,
            ),
          ))
        (Fills-for_range ((total + chunk - 1) / chunk) λ b hb.
          Fills-for_range (min (b * chunk + chunk) total - b * chunk)
            λ i hi. each (b * chunk + i) (omega arith))

-- After a scatter whose values agree with `target`, every cell that it addresses holds it.
pub scatter_hits :
    (target : Buf) (tiles groups chunk width : ℕ) (addr val : ℕ → ℕ → ℕ → ℕ → ℕ)
    → 0 < chunk
    → ((t g l j : ℕ)
        → t < tiles
        → g < groups
        → l < 32
        → j < width
        → val t g l j ≡ target (addr t g l j))
    → (m : Buf) (t g l j : ℕ) → t < tiles
    → g < groups
    → l < 32
    → j < width
    → scatter tiles groups chunk width addr val m (addr t g l j) ≡ target (addr t g l j)
unfolding scatter
scatter_hits target tiles groups chunk width addr val pos agree m t g l j ht hg hl hj =
    (Fills-for_chunks {target = target} tiles chunk pos λ t' ht'.
        Fills-for_range {target = target} groups λ g' hg'.
          Fills-for_range {target = target} 32 λ l' hl'.
            Fills-for_range {target = target} width λ j' hj'.
              Fills-write (addr t' g' l' j') (val t' g' l' j')
                (agree t' g' l' j' ht' hg' hl' hj')).hits
      m (addr t g l j) (t, ht, (g, hg, (l, hl, (j, hj, refl))))
