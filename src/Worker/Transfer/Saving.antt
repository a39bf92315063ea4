-- ===== src/Worker/Transfer/Saving.antt =====
-- worker.rs: what a stopped transfer leaves for the next one.
use download_manager.Base.{
  ℕ, ◌+◌, ◌^◌, ◌<◌, ◌≡◌, refl, sym, ap, subst, ◌∙◌, true, false, Option, ◌∷◌, length, inl, inr,
  String,
}
use download_manager.Error.{ok}
use download_manager.Events.Progress.{Float}
use download_manager.Storage.Paths.{FilePath, manifest_path}
use download_manager.Storage.FileSystem.{FileSystem, Bytes}
use download_manager.Storage.Sidecar.{Json}
use download_manager.Storage.PartFile.{Opened, checkpoint, write}
use download_manager.Storage.PartFile.Laws.{View, Laws, claim}
use download_manager.Storage.PartFile.Durable.{IoResult-cases, Result-cases}
use download_manager.Storage.PartFile.Position.{Advances}
use download_manager.Storage.PartFile.Uses.{For, carried, write-For}
use download_manager.Storage.PartFile.Saved.{
  Faithful, Faithful-Readable, About, Left, Saved, checkpoint-Saved, write-Saved,
}
use download_manager.Worker.Transfer.{
  Body, interrupted, ended, broken, more, Transfer, count_read, transfer,
}
use download_manager.Worker.Transfer.Counting.{size, Counted, count_read_lem}
use download_manager.Worker.Transfer.Stopping.{transfer-Preserves}

module _ {F W : Type 0} (float : Float F) (fs : FileSystem W) (view : View W) (json : Json)
    (faithful : Faithful json) (url : String) (tag : Option String) where
  -- A call on the part file that keeps its manifest saved.
  abbrev Carries : FilePath → ℕ → (Opened W → Opened W) → Opened W → Type 0
  Carries dest file call o =
      Laws view fs dest file
      → Saved view json url tag dest o
      → Saved view json url tag dest (call o)

  checkpoint-keeps :
      (dest : FilePath) (file : ℕ) (o : Opened W)
      → For fs json dest file o
      → Carries dest file (λ o. (checkpoint fs json o).1) o
  checkpoint-keeps dest file o same =
      carried fs json (λ d f. Carries d f (λ o. (checkpoint fs json o).1) o) o same
        (checkpoint-Saved view json fs faithful url tag o)

  -- After a read the part file is the same one, and saved.
  read-keeps :
      (dest : FilePath) (file now : ℕ) (bytes : Bytes) (s : Transfer F W)
      → Laws view fs dest file
      → For fs json dest file s.opened
      → Saved view json url tag dest s.opened
      → let t : Transfer F W = record s { opened = (write fs json bytes s.opened).1 } in
        let next = (count_read float fs now (length bytes) t).1 in
        For fs json dest file next.opened
        × Saved view json url tag dest next.opened
        × Saved view json url tag dest t.opened
  read-keeps dest file now bytes s laws same h =
      let t : Transfer F W = record s { opened = (write fs json bytes s.opened).1 } in
      let opened = (count_read_lem float fs now (length bytes) t).0 in
      let (dest', file') = write-For fs json s.opened bytes in
      let saved =
        carried fs json (λ d f. Carries d f (λ o. (write fs json bytes o).1) s.opened) s.opened same
          (write-Saved view json fs faithful url tag s.opened bytes) laws h in
      (
        subst (For fs json dest file) (sym opened) (dest' ∙ same.0, file' ∙ same.1),
        subst (Saved view json url tag dest) (sym opened) saved,
        saved,
      )

  -- All through the loop, and also when it fails, a clean part file has its manifest on disk.
  transfer-Saved :
      (body : Body) (dest : FilePath) (file : ℕ) (s : Transfer F W)
      → Laws view fs dest file
      → For fs json dest file s.opened
      → Saved view json url tag dest s.opened
      → Saved view json url tag dest (transfer float fs json body s).1.opened
  unfolding transfer
  transfer-Saved interrupted dest file s laws same h =
      let saved = checkpoint-keeps dest file s.opened same laws h in
      elim (Result-cases (checkpoint fs json s.opened).0) [
        | inl (u, e) ↦ rw e saved
        | inr (error, e) ↦ rw e saved
      ]
  transfer-Saved ended dest file s laws same h = h
  transfer-Saved (broken text) dest file s laws same h =
      checkpoint-keeps dest file s.opened same laws h
  transfer-Saved (more now first bytes body) dest file s laws same h =
      let t : Transfer F W = record s { opened = (write fs json (first ∷ bytes) s.opened).1 } in
      let next = (count_read float fs now (length (first ∷ bytes)) t).1 in
      let (same', counted, written) = read-keeps dest file now (first ∷ bytes) s laws same h in
      elim (Result-cases (write fs json (first ∷ bytes) s.opened).0) [
        | inr (error, e) ↦ rw e written
        | inl (u, e) ↦ rw e (transfer-Saved body dest file next laws same' counted)
      ]

  Saved-Left :
      (dest : FilePath) (n : ℕ) (o : Opened W)
      → Saved view json url tag dest o
      → o.part.dirty ≡ false
      → claim json (view.contents (manifest_path dest) o.disk) ≡ n
      → Left view json url tag dest n o.disk
  unfolding claim
  Saved-Left dest n o h clean claims = elim h.kept [
    | inl dirty ↦ let impossible = sym clean ∙ dirty in absurd (cc)
    | inr (bytes, left, reads) ↦
        (o.part.manifest, (bytes, left, reads), h.about, rw (left, claim, reads) at claims)
  ]

  -- The part file, taken to be dirty.
  abbrev dirtied : Transfer F W → Transfer F W
  dirtied s = record s { opened = record s.opened { part = record s.opened.part { dirty = true } } }

  -- The first read makes the part file dirty, whatever it was before.
  transfer-dirtied :
      (now first : ℕ) (bytes : Bytes) (body : Body) (s : Transfer F W)
      → let whole = more now first bytes body in
        (transfer float fs json whole s).0 ≡ ok false
        → transfer float fs json whole (dirtied s) ≡ transfer float fs json whole s
  unfolding transfer write
  transfer-dirtied now first bytes body s returned =
      elim (IoResult-cases (fs.write_all s.opened.part.file (first ∷ bytes) s.opened.disk).0) [
        | inr (error, e) ↦ let impossible = rw e at returned in cc
        | inl (u, e) ↦ rw e refl
      ]

  -- A transfer that has read something, returns after a stop request and began at the count leaves on
  -- disk a manifest of its address and validator that claims exactly the bytes counted.
  pub transfer-Left :
      (now first : ℕ) (bytes : Bytes) (body : Body) (dest : FilePath) (file : ℕ) (s : Transfer F W)
      → Laws view fs dest file
      → Advances view fs file
      → Counted float fs view json (Faithful-Readable json faithful) dest file s
      → About url tag s.opened.part.manifest
      → let whole = more now first bytes body in
        s.progress.bytes + size whole < 2 ^ 64
        → (transfer float fs json whole s).0 ≡ ok false
        → Left view json url tag dest
            (s.progress.bytes + size whole)
            (transfer float fs json whole s).1.opened.disk
  transfer-Left now first bytes body dest file s laws advances (same, stands) about fits returned =
      let whole = more now first bytes body in
      let t = dirtied s in
      let alike = transfer-dirtied now first bytes body s returned in
      let readable = Faithful-Readable json faithful in
      let (clean, claims) =
        transfer-Preserves float fs view json readable whole dest file t laws advances
          (same, stands) (inl refl) fits (ap (λ r. r.0) alike ∙ returned) in
      let saved =
        transfer-Saved whole dest file t laws same (record { about = about; kept = inl refl }) in
      let left =
        Saved-Left dest (s.progress.bytes + size whole) (transfer float fs json whole t).1.opened
          saved clean claims in
      subst (λ r. Left view json url tag dest (s.progress.bytes + size whole) r.1.opened.disk) alike
        left
