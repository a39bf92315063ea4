-- ===== src/Worker/Client/Ranges.antt =====
-- worker.rs, `send_get`: what a server reads in the headers of a request.
use Prim.Native.Char.{Char, code}
use Prim.Native.String.{[], ◌∷◌, ◌++◌, len}
use Prim.Native.String.append
use download_manager.Base.{
  ℕ, zero, suc, ◌+◌, ◌-◌, ◌*◌, ◌^◌, ◌<◌, ◌≡◌, ◌≢◌, refl, ap, ◌∙◌, sym, subst, inl, inr, ◌⊎◌, Bool,
  Option-cases, arith, String, ◌&&◌, Option, none, some, leb, ltb, ◌==◌, if◌then◌else◌, true, false,
}
use download_manager.Error.{Result, ok, err}
use download_manager.Io.{ok_inj}
use download_manager.Request.{Request}
use download_manager.Storage.Manifest.{Manifest}
use download_manager.Worker.Number.{show_u64}
use download_manager.Worker.Number.Digits.{read-show_u64}
use download_manager.Worker.Client.{
  Headers, HttpRequest, HttpCrate, and_then, with_header, with_if_range, prior_validator,
  new_request, get_request,
}

-- The number that stands before a dash.
abbrev before_dash : ℕ → String → Option ℕ
before_dash n [] = none
before_dash n (c ∷ rest) =
    let d = code c - 48 in
    let read = before_dash (n * 10 + d) rest in
    if code c == 45 then some n else if leb 48 (code c) && leb (code c) 57 then read else none

abbrev after_equals : String → Option ℕ
after_equals [] = none
after_equals (c ∷ rest) =
    let found = after_equals rest in if code c == 61 then before_dash 0 rest else found

-- The first byte that a `Range` header asks for, the first one of all if there is no header.
abbrev pub first_byte : Option String → Option ℕ
first_byte none = some 0
first_byte (some text) = after_equals text

read_char :
    (m d : ℕ) (c : Char) (out : String)
    → d < 10
    → code c ≡ 48 + d
    → m * 10 + d < 2 ^ 64
    → before_dash m (c ∷ out) ≡ before_dash (m * 10 + d) out
read_char m d c out h e fits = ground arith

after_equals-bytes : (out : String) → after_equals ("bytes=" ++ out) ≡ before_dash 0 out
after_equals-bytes out =
    ap after_equals (append.cons _ "ytes=" out)
    ∙ ap after_equals (append.cons _ "tes=" out)
    ∙ ap after_equals (append.cons _ "es=" out)
    ∙ ap after_equals (append.cons _ "s=" out)
    ∙ ap after_equals (append.cons _ "=" out)
    ∙ ap after_equals (append.cons _ "" out)
    ∙ ap (before_dash 0) (append.nil out)

pub first_byte-range :
    (offset : ℕ)
    → offset < 2 ^ 64
    → first_byte (some ("bytes=" ++ (show_u64 offset ++ "-"))) ≡ some offset
first_byte-range offset fits =
    after_equals-bytes (show_u64 offset ++ "-")
    ∙ read-show_u64 before_dash read_char offset "-" fits

-- `HeaderMap`: a name is found with the value that it was given last.
pub record MapLaws (crate : HttpCrate) (get : String → Headers → Option String) : Type 0 where
  pub get-insert :
      (name value : String) (headers : Headers)
      → get name (crate.insert name value headers) ≡ some value
  pub get-insert-other :
      (name other value : String) (headers : Headers)
      → name ≢ other
      → get name (crate.insert other value headers) ≡ get name headers

and_then-ok :
    {A B : Type 0} (r : Result A) (f : A → Result B) {b : B}
    → and_then r f ≡ ok b
    → (a : A) × (r ≡ ok a) × (f a ≡ ok b)
and_then-ok (ok a) f e = (a, refl, e)
and_then-ok (err error) f e = cc

zero-or_positive : (n : ℕ) → (n ≡ 0) ⊎ (0 < n)
zero-or_positive zero = inl refl
zero-or_positive (suc n) = inr (omega arith)

taken : {A : Type 0} (b : Bool) (x y : A) {r : A} → b ≡ true → (if b then x else y) ≡ r → x ≡ r
taken true x y h e = e
taken false x y h e = cc

not_taken : {A : Type 0} (b : Bool) (x y : A) {r : A} → b ≡ false → (if b then x else y) ≡ r → y ≡ r
not_taken true x y h e = cc
not_taken false x y h e = e

range≢if-range : ◌≢◌ {A = String} "range" "if-range"
range≢if-range e = let lengths = ap len e in omega arith

module _ (crate : HttpCrate) (get : String → Headers → Option String)
    (laws : MapLaws crate get) where
  -- A header that is set, and the others as they were.
  record Set (name value : String) (before after : Headers) : Type 0 where
    pub this : get name after ≡ some value
    pub others : (other : String) → other ≢ name → get other after ≡ get other before

  with_header-Set :
      (name value : String) (request : HttpRequest) {sent : HttpRequest}
      → with_header crate name value request ≡ ok sent
      → Set name value request.headers sent.headers
  unfolding with_header
  with_header-Set name value request made = elim (Option-cases (crate.value_error value)) [
    | inr (source, e) ↦ let impossible = rw (with_header, e) at made in cc
    | inl e ↦
        subst (λ (r : HttpRequest). Set name value request.headers r.headers)
          (ok_inj (rw (with_header, e) at made))
          (record {
            this = laws.get-insert name value request.headers;
            others =
                λ other differs. laws.get-insert-other other name value request.headers differs;
          })
  ]

  with_if_range-range :
      (validator : Option String) (request : HttpRequest) {sent : HttpRequest}
      → with_if_range crate validator request ≡ ok sent
      → get "range" sent.headers ≡ get "range" request.headers
  with_if_range-range none request made =
      ap (λ (r : HttpRequest). get "range" r.headers) (sym (ok_inj made))
  with_if_range-range (some value) request made =
      (with_header-Set "if-range" value request made).others "range" range≢if-range

  new_request-headers :
      (request : Request) {made : HttpRequest}
      → new_request crate request ≡ ok made
      → made.headers ≡ request.config.headers
  unfolding new_request
  new_request-headers request e = elim (Option-cases (crate.get_error request.url)) [
    | inr (text, fails) ↦ let impossible = rw (new_request, fails) at e in cc
    | inl works ↦ ap (λ (r : HttpRequest). r.headers) (sym (ok_inj (rw (new_request, works) at e)))
  ]

  -- The headers of a request that asks for the rest.
  module _ (request : Request) (offset : ℕ) (prior : Option Manifest) {sent : HttpRequest}
      (made : get_request crate request offset prior ≡ ok sent) where
    pub get_request-whole :
        offset ≡ 0 → get "range" sent.headers ≡ get "range" request.config.headers
    unfolding get_request
    get_request-whole whole =
        let (plain, new, kept) = and_then-ok (new_request crate request) _ made in
        let same : plain ≡ sent =
          ok_inj (not_taken (ltb 0 offset) _ _ (ground (arith, whole)) kept) in
        ap (λ (r : HttpRequest). get "range" r.headers) (sym same)
        ∙ ap (get "range") (new_request-headers request new)

    -- The first header, and what the second one adds.
    rest_headers :
        0 < offset
        → (plain ranged : HttpRequest) × (with_header crate "range"
              ("bytes=" ++ (show_u64 offset ++ "-"))
              plain
            ≡ ok ranged)
          × (with_if_range crate (prior_validator crate prior) ranged ≡ ok sent)
    unfolding get_request
    rest_headers positive =
        let (plain, new, set) = and_then-ok (new_request crate request) _ made in
        let (ranged, with_range, conditional) =
          and_then-ok (with_header crate "range" ("bytes=" ++ (show_u64 offset ++ "-")) plain)
            (with_if_range crate (prior_validator crate prior))
            (taken (ltb 0 offset) _ _ (ground arith) set) in
        (plain, ranged, with_range, conditional)

    get_request-rest :
        0 < offset → offset < 2 ^ 64 → first_byte (get "range" sent.headers) ≡ some offset
    get_request-rest positive fits =
        let (plain, ranged, with_range, conditional) = rest_headers positive in
        ap first_byte (
          with_if_range-range (prior_validator crate prior) ranged conditional
          ∙ (with_header-Set "range" _ plain with_range).this)
        ∙ first_byte-range offset fits

    pub get_request-if_range :
        {value : String}
        → 0 < offset
        → prior_validator crate prior ≡ some value
        → get "if-range" sent.headers ≡ some value
    get_request-if_range {value} positive valid =
        let (_, ranged, _, conditional) = rest_headers positive in
        (with_header-Set "if-range" value ranged
          (subst (λ v. with_if_range crate v ranged ≡ ok sent) valid conditional)).this

    -- With no `Range` of its own, the request asks for what stands from the offset on.
    pub get_request-asks :
        offset < 2 ^ 64
        → get "range" request.config.headers ≡ none
        → first_byte (get "range" sent.headers) ≡ some offset
    get_request-asks fits no_range = elim (zero-or_positive offset) [
      | inl whole ↦ ap first_byte (get_request-whole whole ∙ no_range) ∙ ap some (sym whole)
      | inr positive ↦ get_request-rest positive fits
    ]
