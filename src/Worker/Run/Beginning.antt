-- ===== src/Worker/Run/Beginning.antt =====
-- worker.rs: how a transfer begins.
use download_manager.Base.{ℕ, ◌≡◌, sym, ap, ◌∙◌, subst, Option, none, some, some_inj}
use download_manager.Error.{Result, ok}
use download_manager.Io.{Io, ◌>>=◌, from_result, bind-ok, bind-holds, ok_inj}
use download_manager.Request.{Request}
use download_manager.Events.Progress.{Progress, new}
use download_manager.Storage.Manifest.{Manifest, set_contiguous}
use download_manager.Storage.PartFile.{PartFile, open_at}
use download_manager.Storage.PartFile.Laws.{View}
use download_manager.Storage.PartFile.Durable.{if-both}
use download_manager.Storage.PartFile.Opening.{OpenLaws, open_at_lem}
use download_manager.Worker.Client.{Response, content_length}
use download_manager.Worker.Run.{
  WorkerEnv, Peer, start_of, new_manifest, added, open_transfer, begin_transfer, begin_with,
  prepare, check_destination, load_prior, offset_of, respond,
}

module _ {F W : Type 0} (env : WorkerEnv F W) (view : View W) (peer : Peer)
    (request : Request) where
  -- The part file is the destination's and of the request's address, and it stands, and ends,
  -- where the count begins.
  abbrev pub Begins : PartFile → Progress F → W → Type 0
  Begins part progress w =
      (part.dest ≡ request.destination)
      × (view.position part.file w ≡ progress.bytes)
      × (part.manifest.url ≡ request.url)
      × (view.len part.file w ≡ progress.bytes)

  open_transfer-Begins :
      (start : ℕ) (response : Response) (w : W) {part : PartFile} {progress : Progress F}
      → OpenLaws view env.fs request.destination
      → (open_transfer env peer request start response w).0 ≡ ok (part, progress)
      → Begins part progress (open_transfer env peer request start response w).1
  unfolding open_transfer new new_manifest set_contiguous
  open_transfer-Begins start response w {part} {progress} laws begun =
      let manifest = new_manifest request start response in
      let first = new env.float peer.started start (added start (content_length response)) in
      let (opened, (e, continued)) =
        bind-ok (open_at env.fs request.destination start manifest) _ w begun in
      let (belongs, has, stands, cut, _) =
        open_at_lem view env.fs request.destination start manifest w laws e in
      let both = ok_inj (sym (ap (λ r. r.0) continued) ∙ begun) in
      let after = (open_transfer env peer request start response w).1 in
      let measured : (g : ℕ → W → ℕ)
          → g opened.file (open_at env.fs request.destination start manifest w).1 ≡ start
          → g part.file after ≡ progress.bytes =
        λ g h.
          ap (λ b. g b.0.file after) (sym both)
          ∙ (ap (λ r. g opened.file r.1) continued ∙ (h ∙ ap (λ b. b.1.bytes) both)) in
      (
        sym (ap (λ b. b.0.dest) both) ∙ belongs,
        measured view.position stands,
        sym (ap (λ b. b.0.manifest.url) both) ∙ ap (λ (m : Manifest). m.url) has,
        measured view.len cut,
      )

  begin_transfer-Begins :
      (offset : ℕ) (response : Response) (w : W) {part : PartFile} {progress : Progress F}
      → OpenLaws view env.fs request.destination
      → (begin_transfer env peer request offset response w).0 ≡ ok (part, progress)
      → Begins part progress (begin_transfer env peer request offset response w).1
  unfolding begin_transfer
  begin_transfer-Begins offset response w {part} {progress} laws =
      if-both
        (λ (m : Io W (PartFile × Progress F)).
          (m w).0 ≡ ok (part, progress) → Begins part progress (m w).1)
        (env.http.is_success response.status)
        (open_transfer-Begins (start_of offset response) response w laws) (λ failure. cc)

  begin_with-Begins :
      (offset : ℕ) (response : Option Response) (w : W) {part : PartFile} {progress : Progress F}
      → OpenLaws view env.fs request.destination
      → (begin_with env peer request offset response w).0 ≡ ok (some (part, progress))
      → Begins part progress (begin_with env peer request offset response w).1
  begin_with-Begins offset none w laws begun = cc
  begin_with-Begins offset (some response) w {part} {progress} laws begun =
      let (started, (e, continued)) =
        bind-ok (begin_transfer env peer request offset response) _ w begun in
      let same = some_inj (ok_inj (sym (ap (λ r. r.0) continued) ∙ begun)) in
      let begins = begin_transfer-Begins offset response w laws (e ∙ ap ok same) in
      subst (λ (r : Result (Option (PartFile × Progress F)) × W). Begins part progress r.1)
        (sym continued) begins

  -- A worker that comes to a transfer has opened the part file of its destination, which stands where
  -- the count of bytes begins.
  pub prepare-Begins :
      (w : W) {part : PartFile} {progress : Progress F}
      → OpenLaws view env.fs request.destination
      → (prepare env peer request w).0 ≡ ok (some (part, progress))
      → Begins part progress (prepare env peer request w).1
  unfolding prepare
  prepare-Begins w {part} {progress} laws begun =
      let Q = Begins part progress in
      let from_offset : Option Manifest → ℕ → Io W (Option (PartFile × Progress F)) =
        λ prior offset.
          from_result (respond env peer request offset prior)
          >>= begin_with env peer request offset in
      let from_prior : Option Manifest → Io W (Option (PartFile × Progress F)) =
        λ prior. offset_of env request prior >>= from_offset prior in
      let w1 = (check_destination env request w).1 in
      let w2 = (load_prior env request w1).1 in
      bind-holds Q (check_destination env request) _ w begun λ _ _ begun.
        bind-holds Q (load_prior env request) from_prior w1 begun λ prior _ begun.
          let w3 = (offset_of env request prior w2).1 in
          bind-holds Q (offset_of env request prior) (from_offset prior) w2 begun λ offset _ begun.
            bind-holds Q (from_result (respond env peer request offset prior))
              (begin_with env peer request offset) w3 begun
              λ response _ begun. begin_with-Begins offset response w3 laws begun
