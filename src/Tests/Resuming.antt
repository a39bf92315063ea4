-- ===== src/Tests/Resuming.antt =====
-- A download that is stopped after four of its five bytes, and run again.
use text.Mathlib.Text.{◌==◌ as str_eq}
use text.Mathlib.TextEquality.{eq_iff}
use download_manager.Base.{
  ℕ, ◌+◌, ◌≡◌, refl, String, Bool-cases, Option, none, some, List, [], ◌∷◌, ◌⊎◌, inl, inr, arith,
  if◌then◌else◌, ap,
}
use download_manager.Error.{ok}
use download_manager.Events.Progress.{Progress}
use download_manager.Storage.FileSystem.{Bytes}
use download_manager.Storage.Manifest.{ByteRange, Manifest}
use download_manager.Storage.Sidecar.{Json}
use download_manager.Storage.PartFile.{PartFile}
use download_manager.Storage.PartFile.Saved.{Faithful}
use download_manager.Worker.Client.{Response}
use download_manager.Worker.Transfer.{interrupted, ended, more}
use download_manager.Worker.Transfer.Counting.{size}
use download_manager.Worker.Run.{WorkerEnv, Peer, responds, prepare}
use download_manager.Worker.Run.Resuming.{ReadLaws, Partial, run-resumes}
use download_manager.Tests.World.{destination}
use download_manager.Tests.Drive.{
  Drive, drive, shown, drive-Laws, drive-OpenLaws, ranges_text, ranges_of, ranges_of-ranges_text,
  read_from,
}
use download_manager.Tests.Storing.{opened}
use download_manager.Tests.Transferring.{
  env, overwriting, peer, part, progress, working, drive-Advances,
}

abbrev address : String
address = "https://example.com/file.bin"

-- Manifests of one file, which has a length and an entity tag.
abbrev encode : String → Option String → Option String → Option ℕ → List ByteRange → String ⊎ Bytes
encode url (some etag) none (some total) ranges =
    if str_eq url address
    then if str_eq etag "abc" then inr (total ∷ ranges_text ranges) else inl "another file"
    else inl "another file"
encode url _ _ _ ranges = inl "unsupported"

abbrev decode : Bytes → Option Manifest
decode [] = none
decode (total ∷ bytes) = some (record {
  url = address;
  etag = some "abc";
  last_modified = none;
  total_length = some total;
  completed_ranges = ranges_of bytes;
})

abbrev one_file : Json
one_file = record {
  to_vec = λ m. encode m.url m.etag m.last_modified m.total_length m.completed_ranges;
  from_slice = decode;
}

decode-encode :
    (url : String) (etag last_modified : Option String) (total : Option ℕ) (ranges : List ByteRange)
    {bytes : Bytes}
    → encode url etag last_modified total ranges ≡ inr bytes
    → decode bytes
      ≡ some (record {
        url = url;
        etag = etag;
        last_modified = last_modified;
        total_length = total;
        completed_ranges = ranges;
      })
decode-encode url none last_modified total ranges {bytes} e = cc
decode-encode url (some etag) (some date) total ranges e = cc
decode-encode url (some etag) none none ranges e = cc
decode-encode url (some etag) none (some total) ranges {bytes} e =
    elim (Bool-cases (str_eq url address)) [
      | inr other ↦ let impossible = rw other at e in cc
      | inl here ↦ elim (Bool-cases (str_eq etag "abc")) [
        | inr other ↦ let impossible = rw (here, other) at e in cc
        | inl same ↦
            let reads : total ∷ ranges_text ranges ≡ bytes =
              let both = rw (here, same) at e in cc in
            rw (← reads, ranges_of-ranges_text ranges, (eq_iff _ _).0 here, (eq_iff _ _).0 same)
              refl
      ]
    ]

one_file-Faithful : Faithful one_file
one_file-Faithful = record {
  reads_back =
      λ m e. decode-encode m.url m.etag m.last_modified m.total_length m.completed_ranges e;
}

abbrev faithful_env : WorkerEnv ℕ Drive
faithful_env = record env { json = one_file }

abbrev disk : Drive
disk = record opened.disk { manifest = some (5 ∷ 0 ∷ 2 ∷ []) }

abbrev stopped_peer : Peer
stopped_peer = record peer { body = more 10 7 (8 ∷ []) interrupted }

drive-ReadLaws : ReadLaws shown drive destination
drive-ReadLaws = record { metadata_manifest = λ path w. refl; read_done = λ w e. ap read_from e }

begun_first : (prepare faithful_env stopped_peer overwriting disk).0 ≡ ok (some (part, progress))
unfolding working
begun_first = refl

-- The second answer has the one byte that is missing.
abbrev last_byte : Response
last_byte = record {
  status = 206;
  header = λ name.
      if str_eq name "content-length"
      then some (some "1")
      else if str_eq name "etag"
      then some (some "abc")
      else none;
}

abbrev peer_again : Peer
peer_again = record peer { send = λ n http_request. responds last_byte; body = more 50 4 [] ended }

abbrev part_again : PartFile
part_again = record part {
  manifest = record part.manifest { completed_ranges = record { start = 0; end = 4 } ∷ [] };
}

abbrev progress_again : Progress ℕ
progress_again = record progress { bytes = 4; last_sample_bytes = 4 }

peer_again-Partial : Partial peer_again
peer_again-Partial n request response e = cc

run-resumes_example : 4 ≡ 2 + size stopped_peer.body
unfolding working
run-resumes_example =
    run-resumes faithful_env shown one_file-Faithful overwriting stopped_peer peer_again disk "abc"
      10 7 (8 ∷ []) interrupted {part = part} {part' = part_again} {progress = progress}
      {progress' = progress_again} drive-OpenLaws drive-ReadLaws drive-Laws drive-Advances
      begun_first refl refl (omega arith) refl peer_again-Partial (λ len e. ground arith) refl
