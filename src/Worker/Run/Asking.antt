-- ===== src/Worker/Run/Asking.antt =====
-- worker.rs, `run`: the transfer starts where the body starts that the server sends.
use download_manager.Base.{
  ℕ, ◌<◌, ◌≤◌, Option-cases, ◌^◌, ◌≡◌, ◌≢◌, refl, sym, ap, subst, ◌==◌, ◌∙◌, inl, inr, Option, true,
  none, some, arith, String, Bool-cases, if◌then◌else◌,
}
use download_manager.Error.{ok}
use download_manager.Io.{ok_inj, bind-ok}
use download_manager.Request.{Request}
use download_manager.Events.Progress.{Progress}
use download_manager.Storage.Manifest.{Manifest, validator, is_resumable_for}
use download_manager.Storage.Sidecar.{load, part_len}
use download_manager.Storage.PartFile.{PartFile}
use download_manager.Storage.PartFile.Durable.{Result-cases}
use download_manager.Worker.Client.{Headers, HttpRequest, Response, get_request, prior_validator}
use download_manager.Worker.Client.Ranges.{
  first_byte, MapLaws, get_request-asks, get_request-if_range, get_request-whole,
}
use download_manager.Worker.Run.{
  WorkerEnv, Peer, Answer, interrupted, responds, fails, start_of, ask, answered, respond, prepare,
  offset_of, load_prior, check_destination,
}
use download_manager.Worker.Run.Starting.{prepare-Origin, resumable_lem}

-- Where the body of an answer starts: a part starts where it was asked to.
abbrev pub body_start : Option String → Response → Option ℕ
body_start range response = if response.status == 206 then first_byte range else some 0

answered-responds :
    {F W : Type 0} (env : WorkerEnv F W) (answer : Answer) {response : Response}
    → answered env answer ≡ ok (some response)
    → answer ≡ responds response
answered-responds env interrupted e = cc
answered-responds env (responds response) e = cc
answered-responds env (fails text) e = cc

module _ {F W : Type 0} (env : WorkerEnv F W) (peer : Peer) (request : Request) where
  -- An answer that `ask` returns is an answer to the request that it makes.
  pub ask-sends :
      (n offset : ℕ) (prior : Option Manifest) {response : Response}
      → ask env peer n request offset prior ≡ ok (some response)
      → (sent : HttpRequest) × (get_request env.crate request offset prior ≡ ok sent)
        × (peer.send n sent ≡ responds response)
  unfolding ask
  ask-sends n offset prior {response} asked = elim (Bool-cases (peer.stop_requested n)) [
    | inl requested ↦ let impossible = rw requested at asked in cc
    | inr goes_on ↦ elim (Result-cases (get_request env.crate request offset prior)) [
      | inr (error, e) ↦ let impossible = rw (goes_on, e) at asked in cc
      | inl (sent, e) ↦
          (sent, e, answered-responds env (peer.send n sent) (rw (goes_on, e) at asked))
    ]
  ]

-- The validator of the manifest that is resumed from.
pub record Resumed (prior : Option Manifest) : Type 0 where
  pub manifest : Manifest
  pub value : String
  pub from : prior ≡ some manifest
  pub valid : validator manifest ≡ some value

is_resumable_for-validator :
    (manifest : Manifest) (url : String)
    → is_resumable_for manifest url ≡ true
    → (value : String) × (validator manifest ≡ some value)
unfolding is_resumable_for
is_resumable_for-validator manifest url fits = elim (Option-cases (validator manifest)) [
  | inl e ↦ let impossible = rw e at fits in ground arith
  | inr found ↦ found
]

start_of-le : (offset : ℕ) (response : Response) → start_of offset response ≤ offset
unfolding start_of
start_of-le offset response = ground arith

module _ {F W : Type 0} (env : WorkerEnv F W) (get : String → Headers → Option String) (peer : Peer)
    (request : Request) where
  -- An answer, and what it answers: the body starts at `start`, and if that is not 0, then the
  -- request was conditional on the validator.
  pub record Exchange (prior : Option Manifest) (start : ℕ) : Type 0 where
    pub n : ℕ
    pub sent : HttpRequest
    pub response : Response
    pub sends : peer.send n sent ≡ responds response
    pub begins : body_start (get "range" sent.headers) response ≡ some start
    pub guarded : 0 < start → (r : Resumed prior) × (get "if-range" sent.headers ≡ some r.value)

  -- A server sends a part only if a part was asked for.
  abbrev pub Ranged : Type 0
  Ranged =
      (n : ℕ) (sent : HttpRequest) (response : Response)
      → peer.send n sent ≡ responds response
      → response.status ≡ 206
      → get "range" sent.headers ≢ none

  -- The part file's length is a u64.
  abbrev pub Length : W → Type 0
  Length w =
      let w2 = (load_prior env request (check_destination env request w).1).1 in
      (len : ℕ) → (part_len env.fs request.destination w2).0 ≡ ok len → len < 2 ^ 64

  -- An answer to a request for the rest, and to one for everything.
  from_offset :
      (offset : ℕ) (range : Option String) (response : Response)
      → first_byte range ≡ some offset
      → body_start range response ≡ some (start_of offset response)
  unfolding start_of
  from_offset offset range response asks = elim (Bool-cases (response.status == 206)) [
    | inl part ↦ rw part asks
    | inr whole ↦ rw whole refl
  ]

  not_ranged :
      (offset : ℕ) {range : Option String} (response : Response)
      → range ≡ none
      → (response.status ≡ 206 → range ≢ none)
      → (start_of offset response ≡ 0) × (body_start range response ≡ some 0)
  unfolding start_of
  not_ranged offset response plain ranged = elim (Bool-cases (response.status == 206)) [
    | inl part ↦ absurd (ranged (ground arith) plain)
    | inr whole ↦ rw whole (refl, refl)
  ]

  Resumed-validator :
      {prior : Option Manifest} (r : Resumed prior) → prior_validator env.crate prior ≡ some r.value
  Resumed-validator r = ap (prior_validator env.crate) r.from ∙ r.valid

  respond-Exchange :
      (offset : ℕ) (prior : Option Manifest) {response : Response}
      → MapLaws env.crate get
      → get "range" request.config.headers ≡ none
      → Ranged
      → offset < 2 ^ 64
      → (0 < offset → Resumed prior)
      → respond env peer request offset prior ≡ ok (some response)
      → Exchange prior (start_of offset response)
  unfolding respond
  respond-Exchange offset prior {response} laws no_range ranged fits resumed responded =
      elim (Result-cases (ask env peer 0 request offset prior)) [
        | inr (error, e) ↦ let impossible = rw e at responded in cc
        | inl (none, e) ↦ let impossible = rw e at responded in cc
        | inl (some first, e) ↦ elim (Bool-cases (first.status == 416)) [
          | inl refused ↦
              let (sent, made, sends) =
                ask-sends env peer request 1 0 none (rw (e, refused) at responded) in
              let (start, begins) =
                not_ranged offset response
                  (get_request-whole env.crate get laws request 0 none made refl ∙ no_range)
                  (ranged 1 sent response sends) in
              record {
                n = 1;
                sent = sent;
                response = response;
                sends = sends;
                begins = begins ∙ ap some (sym start);
                guarded = λ positive. absurd (omega (arith, start, positive));
              }
          | inr taken ↦
              let same : first ≡ response = let kept = rw (e, taken) at responded in cc in
              let (sent, made, sends) =
                ask-sends env peer request 0 offset prior (e ∙ ap (λ r. ok (some r)) same) in
              record {
                n = 0;
                sent = sent;
                response = response;
                sends = sends;
                begins =
                    from_offset offset (get "range" sent.headers) response
                      (get_request-asks env.crate get laws request offset prior made fits no_range);
                guarded = λ positive.
                    let r = resumed (omega (arith, start_of-le offset response)) in
                    (
                      r,
                      get_request-if_range env.crate get laws request offset prior made
                          (omega (arith, start_of-le offset response)) (Resumed-validator r),
                    );
              }
        ]
      ]

  offset-Resumed :
      (w : W) (prior : Option Manifest) (offset : ℕ)
      → ((len : ℕ)
          → (part_len env.fs request.destination (load_prior env request w).1).0 ≡ ok len
          → len < 2 ^ 64)
      → (load_prior env request w).0 ≡ ok prior
      → (offset_of env request prior (load_prior env request w).1).0 ≡ ok offset
      → (offset < 2 ^ 64) × (0 < offset → Resumed prior)
  unfolding load_prior offset_of
  offset-Resumed w none offset short fits reaches =
      let zero_offset : 0 ≡ offset = ok_inj reaches in
      (omega arith, λ positive. absurd (omega arith))
  offset-Resumed w (some manifest) offset short fits reaches =
      let w1 = (load_prior env request w).1 in
      let (_, same_url) =
        resumable_lem env peer request (load env.fs env.json request.destination w).0
          (ok_inj fits) in
      let (len, (found, continued)) = bind-ok (part_len env.fs request.destination) _ w1 reaches in
      let least = ok_inj (sym (ap (λ r. r.0) continued) ∙ reaches) in
      let bounded = short len found in
      let (value, valid) = is_resumable_for-validator manifest request.url same_url in
      (
        omega (arith, least),
        λ _. record { manifest = manifest; value = value; from = refl; valid = valid },
      )

  -- If the request has no `Range` of its own, `HeaderMap` keeps its laws, the server sends parts only
  -- where they were asked for, and the part file's length is a u64, then a transfer that begins goes on
  -- from where the body of some answer starts, as the request that it answers has it; and unless that
  -- is 0, the request was conditional on the validator of the manifest on disk that fits.
  pub prepare-Exchange :
      MapLaws env.crate get
      → get "range" request.config.headers ≡ none
      → Ranged
      → (w : W) {part : PartFile} {progress : Progress F} → Length w
      → (prepare env peer request w).0 ≡ ok (some (part, progress))
      → (prior : Option Manifest) × ((load_prior env request (check_destination env request w).1).0
          ≡ ok prior)
        × Exchange prior progress.bytes
  prepare-Exchange laws no_range ranged w {part} {progress} short begun =
      let origin = prepare-Origin env peer request w begun in
      let (fits, resumed) =
        offset-Resumed (check_destination env request w).1 origin.prior origin.offset short
          origin.fits origin.reaches in
      (
        origin.prior,
        origin.fits,
        subst (Exchange origin.prior) (sym origin.starts) (
            respond-Exchange origin.offset origin.prior laws no_range ranged fits resumed
              origin.answers),
      )
