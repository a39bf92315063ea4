-- ===== src/Storage/Manifest.antt =====
-- storage/manifest.rs: the durable record of how far a download has come, in memory.
pub mod Resume
use text.Mathlib.Text.{◌==◌ as str_eq}
use download_manager.Base.{
  ℕ, zero, suc, ◌<◌, ◌≡◌, refl, String, Bool, true, false, ◌&&◌, Option, none, some, List, [], ◌∷◌,
  length, ltb, ◌==◌, if◌then◌else◌,
}

-- The bytes from `start` up to `end`, without it.
pub record ByteRange : Type 0 where
  pub start : ℕ
  pub end : ℕ

pub record Manifest : Type 0 where
  pub url : String
  pub etag : Option String
  pub last_modified : Option String
  pub total_length : Option ℕ
  pub completed_ranges : List ByteRange

abbrev pub continues : ℕ → ByteRange → Bool
continues offset r = (r.start == offset) && ltb offset r.end

-- `completed_ranges.iter().find(…)`.
unfoldable pub find_next : ℕ → List ByteRange → Option ByteRange
find_next offset [] = none
find_next offset (r ∷ ranges) = if continues offset r then some r else find_next offset ranges

-- The `while let` of `resume_offset`, for at most `fuel` rounds.
unfoldable pub resume_loop : ℕ → List ByteRange → ℕ → ℕ
unfolding find_next
resume_loop zero ranges offset = offset
resume_loop (suc fuel) ranges offset = elim (find_next offset ranges) [
  | none ↦ offset
  | some r ↦ resume_loop fuel ranges r.end
]

-- A round leaves at least one range behind for good.
unfoldable pub resume_offset : Manifest → ℕ
unfolding resume_loop
resume_offset manifest = resume_loop (length manifest.completed_ranges) manifest.completed_ranges 0

unfoldable pub set_contiguous : ℕ → Manifest → Manifest
set_contiguous written manifest = record manifest {
  completed_ranges = if ltb 0 written then record { start = 0; end = written } ∷ [] else [];
}

-- `self.etag.as_deref().or(self.last_modified.as_deref())`.
unfoldable pub validator : Manifest → Option String
validator manifest = elim manifest.etag [ some etag ↦ some etag | none ↦ manifest.last_modified ]

abbrev pub is_some {ℓ} : {A : Type ℓ} → Option A → Bool
is_some none = false
is_some (some _) = true

unfoldable pub is_resumable_for : Manifest → String → Bool
unfolding resume_offset validator
is_resumable_for manifest url =
    str_eq manifest.url url && (ltb 0 (resume_offset manifest) && is_some (validator manifest))
