-- ===== src/Worker/Run/Keeping.antt =====
-- worker.rs: a transfer begins with bytes of the part file that it finds.
use download_manager.Base.{
  ℕ, ◌≤◌, ◌≡◌, refl, sym, ap, ◌∙◌, subst, Option, none, some, some_inj, take, length, arith, ◌==◌,
  inl, inr,
}
use download_manager.Error.{Result, ok}
use download_manager.Io.{Io, ◌>>=◌, from_result, bind-ok, bind-holds, ok_inj}
use download_manager.Request.{Request}
use download_manager.Events.Progress.{Progress, new}
use download_manager.Storage.FileSystem.{Bytes}
use download_manager.Storage.Paths.{part_path}
use download_manager.Storage.Manifest.{Manifest}
use download_manager.Storage.Sidecar.{load, part_len}
use download_manager.Storage.PartFile.{PartFile, open_at}
use download_manager.Storage.PartFile.Laws.{View}
use download_manager.Storage.PartFile.Durable.{if-both, IoResult-cases}
use download_manager.Storage.PartFile.Keeping.{found, KeepLaws, open_at-keeps}
use download_manager.Worker.Client.{Response}
use download_manager.Worker.Run.{
  WorkerEnv, Peer, start_of, new_manifest, open_transfer, begin_transfer, begin_with, prepare,
  check_destination, load_prior, offset_of, respond,
}

module _ {F W : Type 0} (env : WorkerEnv F W) (view : View W) (text : ℕ → W → Bytes)
    (request : Request) (laws : KeepLaws view request.destination env.fs text) where
  abbrev old : W → Bytes
  old = found view request.destination

  load_prior-found : (w : W) → old (load_prior env request w).1 ≡ old w
  unfolding load_prior load
  load_prior-found w = laws.read_found w

  check_destination-found : (w : W) → old (check_destination env request w).1 ≡ old w
  unfolding check_destination
  check_destination-found w = laws.metadata_found request.destination w

  part_len-found :
      (w : W) {len : ℕ} → (part_len env.fs request.destination w).0 ≡ ok len → len ≤ length (old w)
  unfolding part_len
  part_len-found w {len} measured =
      elim (IoResult-cases (env.fs.metadata (part_path request.destination) w).0) [
        | inl (n, e) ↦
            let same : n ≡ len = ok_inj (rw e at measured) in
            omega (arith, same, laws.metadata_len w e)
        | inr (error, e) ↦ ground arith
      ]

  part_len-keeps : (w : W) → old (part_len env.fs request.destination w).1 ≡ old w
  unfolding part_len
  part_len-keeps w = laws.metadata_found (part_path request.destination) w

  offset_of-found :
      (prior : Option Manifest) (w : W) {offset : ℕ}
      → (offset_of env request prior w).0 ≡ ok offset
      → (offset ≤ length (old w)) × (old (offset_of env request prior w).1 ≡ old w)
  unfolding offset_of
  offset_of-found none w reached = (omega (arith, ok_inj reached), refl)
  offset_of-found (some manifest) w reached =
      let (len, (measured, continued)) =
        bind-ok (part_len env.fs request.destination) _ w reached in
      let least = ok_inj (sym (ap (λ r. r.0) continued) ∙ reached) in
      (
        omega (arith, least, part_len-found w measured),
        ap (λ r. old r.1) continued ∙ part_len-keeps w,
      )

  module _ (peer : Peer) where
    open_transfer-keeps :
        (start : ℕ) (response : Response) (w : W) {part : PartFile} {progress : Progress F}
        → start ≤ length (old w)
        → (open_transfer env peer request start response w).0 ≡ ok (part, progress)
        → text part.file (open_transfer env peer request start response w).1
          ≡ take progress.bytes (old w)
    unfolding open_transfer new
    open_transfer-keeps start response w {part} {progress} reaches begun =
        let manifest = new_manifest request start response in
        let after = (open_transfer env peer request start response w).1 in
        let (opened, (e, continued)) =
          bind-ok (open_at env.fs request.destination start manifest) _ w begun in
        let kept =
          open_at-keeps view request.destination env.fs text laws start manifest w reaches e in
        let both = ok_inj (sym (ap (λ r. r.0) continued) ∙ begun) in
        ap (λ b. text b.0.file after) (sym both)
        ∙ (ap (λ r. text opened.file r.1) continued
            ∙ (kept ∙ ap (λ b. take b.1.bytes (old w)) both))

    begin_transfer-keeps :
        (offset : ℕ) (response : Response) (w : W) {part : PartFile} {progress : Progress F}
        → offset ≤ length (old w)
        → (begin_transfer env peer request offset response w).0 ≡ ok (part, progress)
        → text part.file (begin_transfer env peer request offset response w).1
          ≡ take progress.bytes (old w)
    unfolding begin_transfer start_of
    begin_transfer-keeps offset response w {part} {progress} reaches =
        let start = start_of offset response in
        let within : start ≤ length (old w) =
          if-both (λ n. n ≤ length (old w)) (response.status == 206) reaches (omega arith) in
        if-both
          (λ (m : Io W (PartFile × Progress F)).
            (m w).0 ≡ ok (part, progress) → text part.file (m w).1 ≡ take progress.bytes (old w))
          (env.http.is_success response.status) (open_transfer-keeps start response w within)
          (λ failure. cc)

    begin_with-keeps :
        (offset : ℕ) (answer : Option Response) (w : W) {part : PartFile} {progress : Progress F}
        → offset ≤ length (old w)
        → (begin_with env peer request offset answer w).0 ≡ ok (some (part, progress))
        → text part.file (begin_with env peer request offset answer w).1
          ≡ take progress.bytes (old w)
    begin_with-keeps offset none w reaches begun = cc
    begin_with-keeps offset (some response) w {part} {progress} reaches begun =
        let (started, (e, continued)) =
          bind-ok (begin_transfer env peer request offset response) _ w begun in
        let same = some_inj (ok_inj (sym (ap (λ r. r.0) continued) ∙ begun)) in
        let kept = begin_transfer-keeps offset response w reaches (e ∙ ap ok same) in
        subst
          (λ (r : Result (Option (PartFile × Progress F)) × W).
            text part.file r.1 ≡ take progress.bytes (old w))
          (sym continued) kept

    -- A worker that comes to a transfer has kept as many bytes of the part file as it counts.
    pub prepare-keeps :
        (w : W) {part : PartFile} {progress : Progress F}
        → (prepare env peer request w).0 ≡ ok (some (part, progress))
        → text part.file (prepare env peer request w).1 ≡ take progress.bytes (old w)
    unfolding prepare
    prepare-keeps w {part} {progress} begun =
        let Q : W → Type 0 = λ v. text part.file v ≡ take progress.bytes (old w) in
        let from_offset : Option Manifest → ℕ → Io W (Option (PartFile × Progress F)) =
          λ prior offset.
            from_result (respond env peer request offset prior)
            >>= begin_with env peer request offset in
        let from_prior : Option Manifest → Io W (Option (PartFile × Progress F)) =
          λ prior. offset_of env request prior >>= from_offset prior in
        let w1 = (check_destination env request w).1 in
        let w2 = (load_prior env request w1).1 in
        let before : old w2 ≡ old w = load_prior-found w1 ∙ check_destination-found w in
        bind-holds Q (check_destination env request) _ w begun λ _ _ begun.
          bind-holds Q (load_prior env request) from_prior w1 begun λ prior _ begun.
            let w3 = (offset_of env request prior w2).1 in
            bind-holds Q (offset_of env request prior) (from_offset prior) w2 begun
              λ offset reached begun.
                bind-holds Q (from_result (respond env peer request offset prior))
                  (begin_with env peer request offset) w3 begun
                  λ answer _ begun.
                    let (reaches, same) = offset_of-found prior w2 reached in
                    begin_with-keeps offset answer w3
                      (subst (λ bytes. offset ≤ length bytes) (sym same) reaches) begun
                    ∙ ap (take progress.bytes) (same ∙ before)
