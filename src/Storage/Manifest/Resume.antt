-- ===== src/Storage/Manifest/Resume.antt =====
-- storage/manifest.rs: what `resume_offset` finds.
use download_manager.Base.{
  ℕ, zero, suc, ◌+◌, ◌≤◌, ◌<◌, ◌≡◌, ◌&&◌, none, some, List, [], ◌∷◌, arith, bit, length, tally, leb,
  ltb, Option-cases, Bool-cases, inl, inr, ltb→lt,
}
use download_manager.Storage.Manifest.{
  ByteRange, Manifest, continues, find_next, resume_loop, resume_offset, set_contiguous,
}

-- How many ranges hold a byte.
abbrev pub covers : ℕ → ByteRange → ℕ
covers b r = bit (leb r.start b && ltb b r.end)

-- The ranges that may still be used.
abbrev ahead : ℕ → ByteRange → ℕ
ahead offset r = bit (leb offset r.start)

ahead-le-length :
    (offset : ℕ) (ranges : List ByteRange) → tally (ahead offset) ranges ≤ length ranges
ahead-le-length offset [] = omega arith
ahead-le-length offset (r ∷ ranges) = ground (arith, ahead-le-length offset ranges)

ahead_mono :
    (o p : ℕ) (ranges : List ByteRange) → o ≤ p → tally (ahead p) ranges ≤ tally (ahead o) ranges
ahead_mono o p [] h = omega arith
ahead_mono o p (r ∷ ranges) h = ground (arith, ahead_mono o p ranges)

-- A found range ends further on, and leaves itself behind.
find_next_lem :
    (offset : ℕ) (ranges : List ByteRange) {r : ByteRange}
    → find_next offset ranges ≡ some r
    → (offset < r.end) × (tally (ahead r.end) ranges + 1 ≤ tally (ahead offset) ranges)
unfolding find_next
find_next_lem offset [] e = cc
find_next_lem offset (q ∷ ranges) {r} e = elim (Bool-cases (continues offset q)) [
  | inl hit ↦ ground (arith, ahead_mono offset q.end ranges)
  | inr miss ↦ ground (arith, find_next_lem offset ranges {r = r})
]

find_next-covers :
    (offset b : ℕ) (ranges : List ByteRange) {r : ByteRange}
    → find_next offset ranges ≡ some r
    → offset ≤ b
    → b < r.end
    → 0 < tally (covers b) ranges
unfolding find_next
find_next-covers offset b [] e h k = cc
find_next-covers offset b (q ∷ ranges) {r} e h k =
    ground (arith, find_next-covers offset b ranges {r = r})

resume_loop-covered :
    (fuel : ℕ) (ranges : List ByteRange) (offset b : ℕ)
    → offset ≤ b
    → b < resume_loop fuel ranges offset
    → 0 < tally (covers b) ranges
unfolding resume_loop
resume_loop-covered zero ranges offset b h k = absurd (omega arith)
resume_loop-covered (suc fuel) ranges offset b h k = elim (Option-cases (find_next offset ranges)) [
  | inl done ↦ ground arith
  | inr (r, found) ↦ elim (Bool-cases (ltb b r.end)) [
    | inl here ↦ find_next-covers offset b ranges found h (ltb→lt b r.end here)
    | inr later ↦ ground (arith, resume_loop-covered fuel ranges r.end b)
  ]
]

resume_loop_stops :
    (fuel : ℕ) (ranges : List ByteRange) (offset : ℕ)
    → tally (ahead offset) ranges ≤ fuel
    → find_next (resume_loop fuel ranges offset) ranges ≡ none
unfolding resume_loop
resume_loop_stops zero ranges offset h = elim (Option-cases (find_next offset ranges)) [
  | inl done ↦ done
  | inr (r, found) ↦ absurd (omega (arith, (find_next_lem offset ranges found).1))
]
resume_loop_stops (suc fuel) ranges offset h = elim (Option-cases (find_next offset ranges)) [
  | inl done ↦ ground arith
  | inr (r, found) ↦
      ground (arith, resume_loop_stops fuel ranges r.end, find_next_lem offset ranges {r = r} found)
]

-- Every byte before the resume offset lies in a completed range.
pub resume_offset-covered :
    (manifest : Manifest) (b : ℕ)
    → b < resume_offset manifest
    → 0 < tally (covers b) manifest.completed_ranges
unfolding resume_offset
resume_offset-covered manifest b h =
    resume_loop-covered (length manifest.completed_ranges) manifest.completed_ranges 0 b
      (omega arith) h

-- The search for the resume offset ends by itself, in as many rounds as there are ranges: no
-- completed range starts at the offset and goes on from there.
pub resume_offset-find_next :
    (manifest : Manifest) → find_next (resume_offset manifest) manifest.completed_ranges ≡ none
unfolding resume_offset
resume_offset-find_next manifest =
    resume_loop_stops (length manifest.completed_ranges) manifest.completed_ranges 0
      (ahead-le-length 0 manifest.completed_ranges)

-- What was recorded as contiguous is where a download resumes.
pub resume_offset-set_contiguous :
    (written : ℕ) (manifest : Manifest) → resume_offset (set_contiguous written manifest) ≡ written
unfolding resume_offset set_contiguous
resume_offset-set_contiguous written manifest = ground arith

-- Only the ranges count.
pub resume_offset-ranges :
    (m n : Manifest) → m.completed_ranges ≡ n.completed_ranges → resume_offset m ≡ resume_offset n
unfolding resume_offset
resume_offset-ranges m n e = rw e
