-- ===== src/Core/Wellbeing/Gaps.antt =====
-- wellbeing.ts, computeGaps: the gaps are the free time of the range.
use nestai.Prelude.{
  ℕ, ◌+◌, ◌-◌, ◌≤◌, ◌<◌, ◌≡◌, ◌⊎◌, inl, inr, true, false, List, [], ◌∷◌, Option, none, String,
  arith, All, Some, here, there, All-map, All-unfilter, filter-passes, filter, max, ltb, Bool-cases,
}
use nestai.Prelude.Sorting.{IsSorted, sort_by-IsSorted, sort_by-All, All-sort_by}
use nestai.Core.Wellbeing.Windows.{
  BusyBlock, FindMicroWindowsInput, Gap, edge_buffer, in_range, earlier, blocks_of, gaps_from,
  compute_gaps,
}

-- The block and the gap keep the buffer between them.
abbrev pub Apart : ℕ → Gap → BusyBlock → Type 0
Apart buffer g b = (g.end + buffer ≤ b.starts_at) ⊎ (b.ends_at + buffer ≤ g.start)

-- The instant keeps the buffer from the block.
abbrev pub Spared : ℕ → ℕ → BusyBlock → Type 0
Spared buffer t b = (t + buffer < b.starts_at) ⊎ (b.ends_at + buffer ≤ t)

abbrev IsClear : ℕ → ℕ → ℕ → List BusyBlock → Gap → Type 0
IsClear buffer range_end cursor bs g =
    (cursor ≤ g.start) × (g.start < g.end) × (g.end ≤ range_end) × All (Apart buffer g) bs

module _ (buffer range_end : ℕ) where
  IsClear-cons :
      (cursor : ℕ) (b : BusyBlock) (bs : List BusyBlock) (g : Gap)
      → IsClear buffer range_end (max cursor (b.ends_at + buffer)) bs g
      → IsClear buffer range_end cursor (b ∷ bs) g
  IsClear-cons cursor b bs g (from, some_time, within, apart) =
      (omega arith, some_time, within, (inr (omega arith), apart))

  gaps_from-IsClear :
      (cursor : ℕ) (last : Option String) (bs : List BusyBlock)
      → IsSorted earlier bs
      → All (λ b. b.starts_at < range_end) bs
      → All (IsClear buffer range_end cursor bs) (gaps_from buffer range_end cursor last bs)
  unfolding gaps_from
  gaps_from-IsClear cursor last [] sorted before = ground arith
  gaps_from-IsClear cursor last (b ∷ bs) sorted before =
      let next = max cursor (b.ends_at + buffer) in
      let rest =
        All-map (gaps_from buffer range_end next b.label bs) (IsClear-cons cursor b bs)
          (gaps_from-IsClear next b.label bs sorted.1 before.1) in
      elim (Bool-cases (ltb cursor (b.starts_at - buffer))) [
        | inl e ↦
            let later : All
                (Apart buffer
                  (record { start = cursor; end = b.starts_at - buffer; adjacent_to = b.label }))
                bs =
              All-map bs (λ c le. inl (ground arith)) sorted.0 in
            rw e (
              (ground arith, ground arith, ground (arith, before.0), (inl (ground arith), later)),
              rest,
            )
        | inr e ↦ rw e rest
      ]

  gaps_from-covers :
      (cursor : ℕ) (last : Option String) (bs : List BusyBlock) (t : ℕ)
      → cursor ≤ t
      → t < range_end
      → All (Spared buffer t) bs
      → Some (λ g. (g.start ≤ t) × (t < g.end)) (gaps_from buffer range_end cursor last bs)
  unfolding gaps_from
  gaps_from-covers cursor last [] t from to spared =
      let e : ltb cursor range_end ≡ true = ground arith in rw e (here (from, to))
  gaps_from-covers cursor last (b ∷ bs) t from to (inl earlier_than, spared) =
      let e : ltb cursor (b.starts_at - buffer) ≡ true = ground arith in
      rw e (here (from, omega arith))
  gaps_from-covers cursor last (b ∷ bs) t from to (inr after, spared) =
      let next =
        gaps_from-covers (max cursor (b.ends_at + buffer)) b.label bs t (omega arith) to spared in
      elim (Bool-cases (ltb cursor (b.starts_at - buffer))) [
        | inl e ↦ rw e (there next)
        | inr e ↦ rw e next
      ]

-- A gap lies in the range and is not empty, overlaps no busy block, and keeps the edge buffer from
-- each block that meets the range.
pub record IsFree (input : FindMicroWindowsInput) (g : Gap) : Type 0 where
  pub from : input.range_start ≤ g.start
  pub to : g.end ≤ input.range_end
  pub some_time : g.start < g.end
  pub apart : All (Apart 0 g) input.busy
  pub buffered : All (λ b. (in_range input b ≡ false) ⊎ Apart (edge_buffer input) g b) input.busy

module _ (input : FindMicroWindowsInput) where
  blocks-IsSorted : IsSorted earlier (blocks_of input)
  unfolding blocks_of
  blocks-IsSorted = sort_by-IsSorted earlier (λ a b h. ground arith) (λ a b c h k. ground arith) _

  blocks-before : All (λ b. b.starts_at < input.range_end) (blocks_of input)
  unfolding blocks_of
  blocks-before = sort_by-All earlier _ _ (
      All-map (filter (in_range input) input.busy) (λ b e. ground arith)
        (filter-passes (in_range input) input.busy))

  blocks→busy :
      (P : BusyBlock → Type 0)
      → ((b : BusyBlock) → in_range input b ≡ false → P b)
      → All P (blocks_of input)
      → All P input.busy
  unfolding blocks_of
  blocks→busy P out h = All-unfilter P (in_range input) input.busy out (All-sort_by earlier P _ h)

  clear-IsFree :
      (g : Gap)
      → IsClear (edge_buffer input) input.range_end input.range_start (blocks_of input) g
      → IsFree input g
  clear-IsFree g (from, some_time, to, apart) = record {
    from = from;
    to = to;
    some_time = some_time;
    apart =
        blocks→busy (Apart 0 g) (λ b out. ground arith)
          (All-map (blocks_of input) (λ b a. ground arith) apart);
    buffered = blocks→busy _ (λ b out. inl out) (All-map (blocks_of input) (λ b a. inr a) apart);
  }

  -- Every gap that `computeGaps` returns lies within the range, takes some time, overlaps none of
  -- the busy blocks, in whatever order they come, and keeps the edge buffer from each block that
  -- meets the range.
  pub compute_gaps-IsFree : All (IsFree input) (compute_gaps input)
  unfolding compute_gaps
  compute_gaps-IsFree = All-map (compute_gaps input) clear-IsFree (
      gaps_from-IsClear (edge_buffer input) input.range_end input.range_start none (blocks_of input)
        blocks-IsSorted blocks-before)

  -- No free time is missed: every instant of the range that keeps the edge buffer from each block
  -- that meets the range lies in a gap.
  pub compute_gaps-covers :
      (t : ℕ)
      → input.range_start ≤ t
      → t < input.range_end
      → All (Spared (edge_buffer input) t) (filter (in_range input) input.busy)
      → Some (λ g. (g.start ≤ t) × (t < g.end)) (compute_gaps input)
  unfolding compute_gaps blocks_of
  compute_gaps-covers t from to spared =
      gaps_from-covers (edge_buffer input) input.range_end input.range_start none (blocks_of input)
        t from to (sort_by-All earlier _ _ spared)
