-- ===== src/Scheduler/Cleanup.antt =====
-- storage/mod.rs and scheduler.rs: what a cancelled download leaves on disk.
use download_manager.Base.{◌≡◌, refl, sym, ap, subst, ◌∙◌, arith, Bool, false, ◌⊎◌, inl, inr}
use download_manager.Error.{Result, ok, err, io}
use download_manager.Error
use download_manager.Job.{Job}
use download_manager.Job.Methods.{finalize}
use download_manager.Storage.Paths.{FilePath, part_path, manifest_path}
use download_manager.Storage.FileSystem.{
  FileSystem, IoError, ErrorKind, not_found, other, done, failed,
}
use download_manager.Storage.PartFile.Durable.{IoResult-cases}
use download_manager.Storage.Discard.{removal, remove_all, discard_partial}
use download_manager.Scheduler.State.{Env, Scheduler, cancel_job}

-- The documented behaviour of `remove_file`, over whether a file is there.
pub record RemoveLaws {W : Type 0} (fs : FileSystem W) (present : FilePath → W → Bool)
    : Type 0 where
  pub removed_done :
      (path : FilePath) (w : W)
      → (fs.remove_file path w).0 ≡ done tt
      → present path (fs.remove_file path w).1 ≡ false
  pub removed_missing :
      (path : FilePath) (w : W) {error : IoError}
      → (fs.remove_file path w).0 ≡ failed error
      → error.kind ≡ not_found
      → present path (fs.remove_file path w).1 ≡ false
  pub makes_nothing :
      (path at : FilePath) (w : W)
      → present at w ≡ false
      → present at (fs.remove_file path w).1 ≡ false

kind-cases : (kind : ErrorKind) → (kind ≡ not_found) ⊎ (kind ≡ other)
kind-cases not_found = inl refl
kind-cases other = inr refl

module _ {W : Type 0} (fs : FileSystem W) (present : FilePath → W → Bool)
    (laws : RemoveLaws fs present) where
  -- What comes of a cleanup: no file is left, or an error that is not about a missing one.
  abbrev Cleans : FilePath → Result (Unit {0}) × W → Type 0
  Cleans dest (result, w) =
      ((result ≡ ok tt)
        × (present (part_path dest) w ≡ false)
        × (present (manifest_path dest) w ≡ false))
      ⊎ ((error : IoError) × (error.kind ≡ other) × (result ≡ err (io error)))

  failed_as :
      (error : IoError)
      → error.kind ≡ other
      → (rest : Result (Unit {0}) × W) (w : W)
      → removal fs (failed error) rest w ≡ (err (io error), w)
  unfolding removal
  failed_as error fails rest w = ground arith

  -- One removal: the file is gone, or the error is reported.
  remove_lem :
      (path : FilePath) (w : W) (rest : Result (Unit {0}) × W)
      → let (result, w') = fs.remove_file path w in
        ((present path w' ≡ false) × (removal fs result rest w' ≡ rest))
        ⊎ ((error : IoError) × (error.kind ≡ other)
            × (removal fs result rest w' ≡ (err (io error), w')))
  unfolding removal
  remove_lem path w rest =
      let w' = (fs.remove_file path w).1 in
      elim (IoResult-cases (fs.remove_file path w).0) [
        | inl (u, e) ↦ inl (laws.removed_done path w e, rw e refl)
        | inr (error, e) ↦ elim (kind-cases error.kind) [
          | inl missing ↦ inl (laws.removed_missing path w e missing, rw (e, missing) refl)
          | inr fails ↦
              inr (error, fails, ap (λ r. removal fs r rest w') e ∙ failed_as error fails rest w')
        ]
      ]

  discard_partial-Cleans : (dest : FilePath) (w : W) → Cleans dest (discard_partial fs dest w)
  unfolding discard_partial remove_all
  discard_partial-Cleans dest w =
      let (part, manifest) : FilePath × FilePath = (part_path dest, manifest_path dest) in
      let w1 = (fs.remove_file part w).1 in
      let w2 = (fs.remove_file manifest w1).1 in
      let rest = removal fs (fs.remove_file manifest w1).0 (ok tt, w2) w2 in
      let P : Result (Unit {0}) × W → Type 0 = Cleans dest in
      elim (remove_lem part w rest) [
        | inr (error, fails, ends) ↦ subst P (sym ends) (inr (error, fails, refl))
        | inl (gone, goes_on) ↦ subst P (sym goes_on) (elim (remove_lem manifest w1 (ok tt, w2)) [
          | inr (error, fails, ends) ↦ subst P (sym ends) (inr (error, fails, refl))
          | inl (gone_too, ends) ↦
              subst P (sym ends) (inl (refl, laws.makes_nothing manifest part w1 gone, gone_too))
        ])
      ]

module _ {W : Type 0} (env : Env W) (present : FilePath → W → Bool)
    (laws : RemoveLaws env.fs present) where
  -- A download whose job is cancelled ends in one of two ways: with `Cancelled`, and then neither its
  -- part file nor its manifest is left, or with the error of a removal, which is not about a missing
  -- file; this supposes that the file system keeps its laws.
  pub cancel_job-cleans :
      (job : Job) (s : Scheduler W)
      → let t = cancel_job env job s in
        let dest = job.request.destination in
        ((t.log ≡ finalize env.http job (err Error.cancelled) s.log)
          × (present (part_path dest) t.disk ≡ false)
          × (present (manifest_path dest) t.disk ≡ false))
        ⊎ ((error : IoError) × (error.kind ≡ other)
            × (t.log ≡ finalize env.http job (err (io error)) s.log))
  unfolding cancel_job
  cancel_job-cleans job s =
      let dest = job.request.destination in
      elim (discard_partial-Cleans env.fs present laws dest s.disk) [
        | inl (cleaned, part, manifest) ↦ inl (rw cleaned refl, part, manifest)
        | inr (error, fails, reported) ↦ inr (error, fails, rw reported refl)
      ]
