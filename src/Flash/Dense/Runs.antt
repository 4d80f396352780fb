-- ===== src/Flash/Dense/Runs.antt =====
-- Batching runs of one length changes nothing.
use v100_skinny_unify.Prelude.{
  ℕ, zero, suc, ◌+◌, ◌-◌, ◌*◌, ◌≤◌, ◌<◌, ◌≡◌, refl, sym, ap, ap₂, ◌∙◌, inl, inr, Option, some, List,
  [], ◌∷◌, min, ltb, ◌==◌, if_true, if_false, arith, Bool-cases,
}
use mathlib.Core.Path.{subst, fun_ext}
use native.Mathlib.Nat.{suc-mul}
use v100_skinny_unify.Prelude.Division.{offset_lt}
use v100_skinny_unify.Prelude.Options.{◌>>=◌}
use v100_skinny_unify.Prelude.Lists.{length, get_or, drop}
use v100_skinny_unify.Queries.{IsMonotone, last_or}
use v100_skinny_unify.Flash.Cache.{write_tokens}
use v100_skinny_unify.Flash.Cache.Reads.{write_tokens-new, write_tokens-below}
use v100_skinny_unify.Flash.Dense.{run_of, attend_run, dense_rounds, dense_prefill}

-- Where a run ends.
record RunEnds (l b : ℕ) (locs : List ℕ) : Type 0 where
  end : ℕ
  tail : List ℕ
  rest : drop (run_of l b locs) (b ∷ locs) ≡ end ∷ tail
  at_end : get_or (b ∷ locs) (run_of l b locs) b ≡ end
  end_is : end ≡ b + run_of l b locs * l
  rises : IsMonotone (end ∷ tail)
  same_last : last_or end tail ≡ last_or b locs
  shorter : length tail ≤ length locs

get_or-default : (locs : List ℕ) (i b c : ℕ) → i < length locs → get_or locs i b ≡ get_or locs i c
get_or-default [] i b c h = absurd (omega arith)
get_or-default (z ∷ locs) zero b c h = refl
get_or-default (z ∷ locs) (suc i) b c h = get_or-default locs i b c (omega arith)

run_of-le : (l b : ℕ) (locs : List ℕ) → run_of l b locs ≤ length locs
unfolding run_of
run_of-le l b [] = omega arith
run_of-le l b (c ∷ locs) = ground (arith, run_of-le l c locs)

run_ends : (l b : ℕ) (locs : List ℕ) → IsMonotone (b ∷ locs) → RunEnds l b locs
unfolding run_of
run_ends l b [] h = record {
  end = b;
  tail = [];
  rest = refl;
  at_end = refl;
  end_is = grind arith;
  rises = tt;
  same_last = refl;
  shorter = omega arith;
}
run_ends l b (c ∷ locs) (le, h) = elim (Bool-cases (c - b == l)) [
  | inl same ↦
      let r = run_ends l c locs h in
      let e : run_of l b (c ∷ locs) ≡ suc (run_of l c locs) = if_true _ _ _ same in
      record {
        end = r.end;
        tail = r.tail;
        rest = rw e r.rest;
        at_end = rw e (
            get_or-default (c ∷ locs) (run_of l c locs) b c (omega (arith, run_of-le l c locs))
            ∙ r.at_end);
        end_is = rw e (let at : c ≡ b + l = ground arith in grind (arith, r.end_is));
        rises = r.rises;
        same_last = r.same_last;
        shorter = omega (arith, r.shorter);
      }
  | inr other ↦
      let e : run_of l b (c ∷ locs) ≡ 0 = if_false _ _ _ other in
      record {
        end = b;
        tail = c ∷ locs;
        rest = rw e refl;
        at_end = rw e refl;
        end_is = rw e (grind arith);
        rises = (le, h);
        same_last = refl;
        shorter = omega arith;
      }
]

-- Each sequence of a batch is attended by itself.
abbrev pub IsBatched : {X Y : Type 0} → (ℕ → ℕ → (ℕ → X) → ℕ → Y) → Type 0
IsBatched {X} attn =
    (n l r j : ℕ) (y : ℕ → X)
    → r < n
    → j < l
    → attn n l y (r * l + j) ≡ attn 1 l (λ i. y (r * l + i)) j

module _ {X Y : Type 0} (attn : ℕ → ℕ → (ℕ → X) → ℕ → Y) (x : ℕ → X) (rows : ℕ) where
  -- Every row of a sequence is what the kernel makes of the sequence alone.
  abbrev pub AreAttended : List ℕ → (ℕ → Y) → Type 0
  AreAttended [] out = Unit {0}
  AreAttended (a ∷ []) out = Unit {0}
  AreAttended (a ∷ b ∷ locs) out =
      ((j : ℕ) → j < b - a → out (a + j) ≡ attn 1 (b - a) (λ i. x (a + i)) j)
      × AreAttended (b ∷ locs) out

  -- Sequence r of a run, which starts at c.
  sequence-attended :
      (start l n r c len : ℕ) (out : ℕ → Y)
      → IsBatched attn
      → c ≡ start + r * l
      → len ≡ l
      → r < n
      → ((k : ℕ) → k < n * l → out (start + k) ≡ attn n l (λ i. x (start + i)) k)
      → (j : ℕ) → j < len
      → out (c + j) ≡ attn 1 len (λ i. x (c + i)) j
  sequence-attended start l n r c len out batched at same below holds j lt =
      let inside : j < l = omega arith in
      ap out (omega arith)
      ∙ holds (r * l + j) (offset_lt below inside)
      ∙ batched n l r j (λ i. x (start + i)) below inside
      ∙ ap₂ (λ (m : ℕ) (y : ℕ → X). attn 1 m y j) (sym same) (fun_ext (λ i. ap x (omega arith)))

  -- The sequences of a run, from its sequence r on.
  run-AreAttended :
      (start l n r c b : ℕ) (locs : List ℕ) (out : ℕ → Y)
      → IsBatched attn
      → c ≡ start + r * l
      → c ≤ b
      → b - c ≡ l
      → n ≡ suc r + run_of l b locs
      → IsMonotone (b ∷ locs)
      → ((k : ℕ) → k < n * l → out (start + k) ≡ attn n l (λ i. x (start + i)) k)
      → AreAttended (drop (run_of l b locs) (b ∷ locs)) out
      → AreAttended (c ∷ b ∷ locs) out
  unfolding run_of
  run-AreAttended start l n r c b [] out batched at up len count h holds rest =
      (sequence-attended start l n r c (b - c) out batched at len (omega arith) holds, rest)
  run-AreAttended start l n r c b (d ∷ locs) out batched at up len count (le, h) holds rest = (
    sequence-attended start l n r c (b - c) out batched at len (omega arith) holds,
    elim (Bool-cases (d - b == l)) [
      | inl same ↦
          let e : run_of l b (d ∷ locs) ≡ suc (run_of l d locs) = if_true _ _ _ same in
          run-AreAttended start l n (suc r) b d locs out batched (omega (arith, suc-mul r l)) le
            (ground arith) (omega (arith, count, e)) h holds
            (subst (λ k. AreAttended (drop k (b ∷ d ∷ locs)) out) e rest)
      | inr other ↦
          let e : run_of l b (d ∷ locs) ≡ 0 = if_false _ _ _ other in
          subst (λ k. AreAttended (drop k (b ∷ d ∷ locs)) out) e rest
    ],
  )

  record IsRun (start stop n l : ℕ) (out : ℕ → Y) (r : Option (ℕ → Y)) : Type 0 where
    after : ℕ → Y
    returned : r ≡ some after
    holds : (k : ℕ) → k < n * l → after (start + k) ≡ attn n l (λ i. x (start + i)) k
    before : (i : ℕ) → i < start → after i ≡ out i
    behind : (i : ℕ) → stop ≤ i → after i ≡ out i

  write_tokens-behind :
      (lo hi i : ℕ) (values out : ℕ → Y) → hi ≤ i → write_tokens lo hi values out i ≡ out i
  unfolding write_tokens
  write_tokens-behind lo hi i values out high = ground arith

  attend_run-IsRun :
      (start stop n l : ℕ) (out : ℕ → Y)
      → stop ≡ start + n * l
      → stop ≤ rows
      → IsRun start stop n l out (attend_run attn x rows start stop n l out)
  unfolding attend_run
  attend_run-IsRun start stop n l out at fits = elim (Bool-cases (ltb 0 l)) [
    | inl some_row ↦
        let values = attn n l (λ i. x (start + i)) in
        record {
          after = write_tokens start stop values out;
          returned =
              if_true (ltb 0 l) _ _ some_row
              ∙ if_true (min stop rows - min start rows == n * l) _ _ (ground arith);
          holds = λ k lt.
              write_tokens-new start stop (start + k) values out (omega arith) (omega arith)
              ∙ ap values (omega arith);
          before = λ i lt. write_tokens-below start stop i values out lt;
          behind = λ i le. write_tokens-behind start stop i values out le;
        }
    | inr no_row ↦ record {
      after = out;
      returned = if_false (ltb 0 l) _ _ no_row;
      holds = λ k lt. absurd (let none_left : l ≡ 0 = ground arith in grind arith);
      before = λ i lt. refl;
      behind = λ i le. refl;
    }
  ]

  -- What the rounds return from the location `a` on.
  pub record IsPrefilled (a : ℕ) (locs : List ℕ) (out : ℕ → Y) (r : Option (ℕ → Y)) : Type 0 where
    pub after : ℕ → Y
    pub returned : r ≡ some after
    pub attended : AreAttended (a ∷ locs) after
    pub before : (i : ℕ) → i < a → after i ≡ out i
    pub behind : (i : ℕ) → last_or a locs ≤ i → after i ≡ out i

  last-ge : (a : ℕ) (locs : List ℕ) → IsMonotone (a ∷ locs) → a ≤ last_or a locs
  last-ge a [] h = omega arith
  last-ge a (b ∷ locs) (le, h) = omega (arith, last-ge b locs h)

  rounds-IsPrefilled :
      (fuel a : ℕ) (locs : List ℕ) (out : ℕ → Y)
      → IsBatched attn
      → length locs < fuel
      → IsMonotone (a ∷ locs)
      → last_or a locs ≤ rows
      → IsPrefilled a locs out (dense_rounds attn x rows fuel (a ∷ locs) out)
  unfolding dense_rounds ◌>>=◌
  rounds-IsPrefilled zero a locs out batched enough h fits = absurd (omega arith)
  rounds-IsPrefilled (suc fuel) a [] out batched enough h fits = record {
    after = out;
    returned = refl;
    attended = tt;
    before = λ i lt. refl;
    behind = λ i le. refl;
  }
  rounds-IsPrefilled (suc fuel) a (b ∷ locs) out batched enough (le, h) fits =
      let l = b - a in
      let run = run_of l b locs in
      let ends = run_ends l b locs h in
      let at : ends.end ≡ a + (1 + run) * l = grind (arith, ends.end_is) in
      let within : ends.end ≤ last_or b locs =
        omega (arith, last-ge ends.end ends.tail ends.rises, ends.same_last) in
      let one = attend_run-IsRun a ends.end (1 + run) l out at (omega (arith, within)) in
      let rest =
        rounds-IsPrefilled fuel ends.end ends.tail one.after batched (omega (arith, ends.shorter))
          ends.rises (omega (arith, ends.same_last)) in
      record {
        after = rest.after;
        returned = rw (ends.at_end, ends.rest, one.returned) rest.returned;
        attended =
            run-AreAttended a l (1 + run) 0 a b locs rest.after batched (grind arith) le refl
              (omega arith) h (λ k lt. rest.before (a + k) (omega (arith, at)) ∙ one.holds k lt)
              (subst (λ ls. AreAttended ls rest.after) (sym ends.rest) rest.attended);
        before = λ i lt. rest.before i (omega (arith, at)) ∙ one.before i lt;
        behind = λ i le.
            rest.behind i (omega (arith, ends.same_last)) ∙ one.behind i (omega (arith, within));
      }

  -- The dense prefill returns, and batching changes nothing: every row of a sequence is what the
  -- kernel makes of that sequence alone, and the rows outside the locations stay as they are. The
  -- locations rise and end within the rows, and the kernel attends each sequence of a batch by
  -- itself.
  pub dense_prefill-IsPrefilled :
      (a : ℕ) (locs : List ℕ) (out : ℕ → Y)
      → IsBatched attn
      → IsMonotone (a ∷ locs)
      → last_or a locs ≤ rows
      → IsPrefilled a locs out (dense_prefill attn x rows (a ∷ locs) out)
  unfolding dense_prefill
  dense_prefill-IsPrefilled a locs out batched h fits =
      rounds-IsPrefilled (1 + suc (length locs)) a locs out batched (omega arith) h fits
