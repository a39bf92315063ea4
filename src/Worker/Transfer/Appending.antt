-- ===== src/Worker/Transfer/Appending.antt =====
-- worker.rs: the loop appends the body to the part file.
use download_manager.Base.{ℕ, ◌≡◌, sym, ap, subst, ◌∙◌, true, [], ◌∷◌, ◌++◌, length, inl, inr}
use mathlib.Core.List.{append-nil, append_assoc}
use download_manager.Error.{ok}
use download_manager.Events.Progress.{Float}
use download_manager.Storage.Paths.{FilePath}
use download_manager.Storage.FileSystem.{FileSystem, Bytes}
use download_manager.Storage.Sidecar.{Json}
use download_manager.Storage.PartFile.{Opened, write, checkpoint}
use download_manager.Storage.PartFile.Laws.{View, Laws, Readable}
use download_manager.Storage.PartFile.Durable.{Result-cases}
use download_manager.Storage.PartFile.Position.{Advances}
use download_manager.Storage.PartFile.Uses.{For, carried, write-For}
use download_manager.Storage.PartFile.Contents.{Texts, AtEnd, write-text}
use download_manager.Worker.Transfer.{
  Body, interrupted, ended, broken, more, Transfer, count_read, transfer,
}
use download_manager.Worker.Transfer.Counting.{count_read_lem}

-- The bytes of a body.
abbrev pub bytes_of : Body → Bytes
bytes_of (more now first bytes body) = first ∷ bytes ++ bytes_of body
bytes_of _ = []

module _ {F W : Type 0} (float : Float F) (fs : FileSystem W) (view : View W) (json : Json)
    (readable : Readable json) (text : ℕ → W → Bytes) where
  -- The part file is the destination's, and stands at its end.
  abbrev pub Appends : FilePath → ℕ → Opened W → Type 0
  Appends dest file o = For fs json dest file o × AtEnd view fs json text file o.disk

  read-Appends :
      (dest : FilePath) (file now : ℕ) (bytes : Bytes) (s : Transfer F W)
      → Laws view fs dest file
      → Texts view fs dest file text
      → Advances view fs file
      → Appends dest file s.opened
      → (write fs json bytes s.opened).0 ≡ ok tt
      → let t : Transfer F W = record s { opened = (write fs json bytes s.opened).1 } in
        let next = (count_read float fs now (length bytes) t).1 in
        Appends dest file next.opened
        × (text file next.opened.disk ≡ text file s.opened.disk ++ bytes)
  read-Appends dest file now bytes s laws texts advances (same, at_end) returned =
      let t : Transfer F W = record s { opened = (write fs json bytes s.opened).1 } in
      let opened = sym (count_read_lem float fs now (length bytes) t).0 in
      let (dest', file') = write-For fs json s.opened bytes in
      let (appended, still) =
        carried fs json
          (λ d f.
            Laws view fs d f
            → Texts view fs d f text
            → Advances view fs f
            → AtEnd view fs json text f s.opened.disk
            → (text f t.opened.disk ≡ text f s.opened.disk ++ bytes)
              × AtEnd view fs json text f t.opened.disk)
          s.opened same
          (λ laws texts advances at_end.
            write-text view fs json text readable s.opened bytes laws texts advances at_end
              returned)
          laws texts advances at_end in
      subst
        (λ (o : Opened W).
          Appends dest file o × (text file o.disk ≡ text file s.opened.disk ++ bytes))
        opened (((dest' ∙ same.0, file' ∙ same.1), still), appended)

  -- When the loop returns at the end of the body, the part file has got all of it, behind what it had.
  pub transfer-Appends :
      (body : Body) (dest : FilePath) (file : ℕ) (s : Transfer F W)
      → Laws view fs dest file
      → Texts view fs dest file text
      → Advances view fs file
      → Appends dest file s.opened
      → (transfer float fs json body s).0 ≡ ok true
      → let t = (transfer float fs json body s).1 in
        For fs json dest file t.opened
        × (text file t.opened.disk ≡ text file s.opened.disk ++ bytes_of body)
  unfolding transfer
  transfer-Appends interrupted dest file s laws texts advances h returned =
      elim (Result-cases (checkpoint fs json s.opened).0) [
        | inl (u, e) ↦ let impossible = rw e at returned in cc
        | inr (error, e) ↦ let impossible = rw e at returned in cc
      ]
  transfer-Appends ended dest file s laws texts advances h returned =
      (h.0, sym (append-nil (text file s.opened.disk)))
  transfer-Appends (broken error) dest file s laws texts advances h returned = cc
  transfer-Appends (more now first bytes body) dest file s laws texts advances h returned =
      let t : Transfer F W = record s { opened = (write fs json (first ∷ bytes) s.opened).1 } in
      let next = (count_read float fs now (length (first ∷ bytes)) t).1 in
      elim (Result-cases (write fs json (first ∷ bytes) s.opened).0) [
        | inr (error, e) ↦ let impossible = rw e at returned in cc
        | inl (u, e) ↦
            let (kept, appended) =
              read-Appends dest file now (first ∷ bytes) s laws texts advances h e in
            let (same, all_appended) =
              transfer-Appends body dest file next laws texts advances kept (rw e at returned) in
            rw e (
              same,
              all_appended
                  ∙ (ap (λ old. old ++ bytes_of body) appended
                      ∙ append_assoc (text file s.opened.disk) (first ∷ bytes) (bytes_of body)),
            )
      ]
