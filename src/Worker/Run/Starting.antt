-- ===== src/Worker/Run/Starting.antt =====
-- worker.rs: where a transfer starts.
use download_manager.Base.{
  ℕ, ◌≤◌, ◌≡◌, refl, sym, ap, subst, ◌==◌, ◌∙◌, ◌⊎◌, inl, inr, Option, true, none, some, arith,
  Bool-cases, some_inj,
}
use download_manager.Error.{ok}
use download_manager.Io.{Io, ◌>>=◌, from_result, bind-ok, bind-holds, ok_inj}
use download_manager.Request.{Request}
use download_manager.Events.Progress.{Progress, new}
use download_manager.Storage.Manifest.{Manifest, resume_offset, is_resumable_for}
use download_manager.Storage.Sidecar.{load, part_len}
use download_manager.Storage.PartFile.{PartFile, open_at}
use download_manager.Storage.PartFile.Durable.{if-both}
use download_manager.Worker.Client.{Response}
use download_manager.Worker.Run.{
  WorkerEnv, Peer, start_of, new_manifest, open_transfer, begin_transfer, begin_with, resumable,
  check_destination, load_prior, offset_of, respond, prepare,
}

module _ {F W : Type 0} (env : WorkerEnv F W) (peer : Peer) (request : Request) where
  -- From nothing, or from the prefix that a manifest of the same address claims, as far as the part
  -- file reaches.
  abbrev pub Starts : W → ℕ → Type 0
  Starts w start =
      let w1 = (check_destination env request w).1 in
      let w2 = (load_prior env request w1).1 in
      (start ≡ 0)
      ⊎ ((manifest : Manifest) × (len : ℕ) × ((load env.fs env.json request.destination w1).0
            ≡ some manifest)
          × (is_resumable_for manifest request.url ≡ true)
          × ((part_len env.fs request.destination w2).0 ≡ ok len)
          × (start ≤ resume_offset manifest)
          × (start ≤ len))

  pub resumable_lem :
      (loaded : Option Manifest) {manifest : Manifest}
      → resumable env request loaded ≡ some manifest
      → (loaded ≡ some manifest) × (is_resumable_for manifest request.url ≡ true)
  resumable_lem none e = cc
  resumable_lem (some m) {manifest} e = elim (Bool-cases (is_resumable_for m request.url)) [
    | inl fits ↦
        let same = some_inj (rw fits at e) in
        (ap some same, ap (λ n. is_resumable_for n request.url) (sym same) ∙ fits)
    | inr other ↦ let impossible = rw other at e in cc
  ]

  offset-Starts :
      (w : W) (prior : Option Manifest) (offset : ℕ)
      → (load_prior env request (check_destination env request w).1).0 ≡ ok prior
      → (offset_of env request prior
          (load_prior env request (check_destination env request w).1).1).0
        ≡ ok offset
      → Starts w offset
  unfolding load_prior offset_of
  offset-Starts w none offset e f = inl (sym (ok_inj f))
  offset-Starts w (some manifest) offset e f =
      let w1 = (check_destination env request w).1 in
      let w2 = (load_prior env request w1).1 in
      let (loaded, fits) =
        resumable_lem (load env.fs env.json request.destination w1).0 (ok_inj e) in
      let (len, (found, continued)) = bind-ok (part_len env.fs request.destination) _ w2 f in
      let least = ok_inj (sym (ap (λ r. r.0) continued) ∙ f) in
      inr (manifest, len, loaded, fits, found, omega (arith, least), omega (arith, least))

  pub open_transfer-bytes :
      (start : ℕ) (response : Response) (w : W) {part : PartFile} {progress : Progress F}
      → (open_transfer env peer request start response w).0 ≡ ok (part, progress)
      → progress.bytes ≡ start
  unfolding open_transfer new
  open_transfer-bytes start response w {part} {progress} begun =
      let (opened, (e, continued)) =
        bind-ok (open_at env.fs request.destination start (new_manifest request start response)) _ w
          begun in
      let both = ok_inj (sym (ap (λ r. r.0) continued) ∙ begun) in sym (ap (λ b. b.1.bytes) both)

  begin_transfer-bytes :
      (offset : ℕ) (response : Response) (w : W) {part : PartFile} {progress : Progress F}
      → (begin_transfer env peer request offset response w).0 ≡ ok (part, progress)
      → progress.bytes ≡ start_of offset response
  unfolding begin_transfer
  begin_transfer-bytes offset response w {part} {progress} =
      let start = start_of offset response in
      if-both
        (λ (m : Io W (PartFile × Progress F)).
          (m w).0 ≡ ok (part, progress) → progress.bytes ≡ start)
        (env.http.is_success response.status) (open_transfer-bytes start response w) (λ failure. cc)

  -- What a transfer begins from: the manifest that fits, the offset and the answer.
  pub record Origin (w : W) (start : ℕ) : Type 0 where
    pub prior : Option Manifest
    pub offset : ℕ
    pub response : Response
    pub fits : (load_prior env request (check_destination env request w).1).0 ≡ ok prior
    pub reaches :
        let w2 = (load_prior env request (check_destination env request w).1).1 in
        (offset_of env request prior w2).0 ≡ ok offset
    pub answers : respond env peer request offset prior ≡ ok (some response)
    pub starts : start ≡ start_of offset response

  begin_with-bytes :
      (offset : ℕ) (answer : Option Response) (w : W) {part : PartFile} {progress : Progress F}
      → (begin_with env peer request offset answer w).0 ≡ ok (some (part, progress))
      → (response : Response) × (answer ≡ some response)
        × (progress.bytes ≡ start_of offset response)
  begin_with-bytes offset none w begun = cc
  begin_with-bytes offset (some response) w begun =
      let (started, (e, continued)) =
        bind-ok (begin_transfer env peer request offset response) _ w begun in
      let same = some_inj (ok_inj (sym (ap (λ r. r.0) continued) ∙ begun)) in
      (response, refl, begin_transfer-bytes offset response w (e ∙ ap ok same))

  pub prepare-Origin :
      (w : W) {part : PartFile} {progress : Progress F}
      → (prepare env peer request w).0 ≡ ok (some (part, progress))
      → Origin w progress.bytes
  unfolding prepare
  prepare-Origin w {part} {progress} begun =
      let Q : W → Type 0 = λ _. Origin w progress.bytes in
      let from_offset : Option Manifest → ℕ → Io W (Option (PartFile × Progress F)) =
        λ prior offset.
          from_result (respond env peer request offset prior)
          >>= begin_with env peer request offset in
      let from_prior : Option Manifest → Io W (Option (PartFile × Progress F)) =
        λ prior. offset_of env request prior >>= from_offset prior in
      let w1 = (check_destination env request w).1 in
      let w2 = (load_prior env request w1).1 in
      bind-holds Q (check_destination env request) _ w begun λ _ _ begun.
        bind-holds Q (load_prior env request) from_prior w1 begun λ prior fits begun.
          let w3 = (offset_of env request prior w2).1 in
          bind-holds Q (offset_of env request prior) (from_offset prior) w2 begun
            λ offset reaches begun.
              bind-holds Q (from_result (respond env peer request offset prior))
                (begin_with env peer request offset) w3 begun
                λ answer answered begun.
                  let (response, answers, starts) = begin_with-bytes offset answer w3 begun in
                  record {
                    prior = prior;
                    offset = offset;
                    response = response;
                    fits = fits;
                    reaches = reaches;
                    answers = answered ∙ ap ok answers;
                    starts = starts;
                  }

  -- A transfer starts at 0, or within the prefix that a manifest claims and within the part file; the
  -- manifest was on disk, is of the request's address, and has a validator and a prefix.
  pub prepare-Starts :
      (w : W) {part : PartFile} {progress : Progress F}
      → (prepare env peer request w).0 ≡ ok (some (part, progress))
      → Starts w progress.bytes
  unfolding start_of
  prepare-Starts w {part} {progress} begun =
      let o = prepare-Origin w begun in
      let within = offset-Starts w o.prior o.offset o.fits o.reaches in
      subst (Starts w) (sym o.starts)
        (if-both (Starts w) (o.response.status == 206) within (inl refl))
