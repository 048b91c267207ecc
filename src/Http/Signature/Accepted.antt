-- ===== src/Http/Signature/Accepted.antt =====
-- A webhook is accepted exactly if its header is the prefix and the hexadecimal digest of its body.
use wats.Base.{
  ℕ, ◌≡◌, ◌≢◌, ◌∙◌, ◌↔◌, refl, ap, sym, inl, inr, true, false, Option, none, some, List, [], ◌∷◌,
  ◌++◌, All, length, arith, ◌==◌, ==_iff, ==_refl, Option-cases, Bool-cases,
}
use wats.Http.Signature as Sig
use wats.Http.Signature.{
  valid, Acquired, Provider, provided, RawBody, is_acceptable_raw_body, to_body_bytes,
  signature_prefix, after_prefix, digits_of, header_digits, is_hex_text, hex_to_bytes, hex_pairs,
  is_blank, compare_digests, check_digest, check_body, check_signature, check_header,
  header_or_missing, validate_webhook_signature,
}
use wats.Http.Signature.Hex.{
  hex_of, IsByte, hex_pairs-hex_of, is_hex_text-hex_of, length-hex_of, hex_pairs-of,
}

after_prefix-append : (p s : List ℕ) → after_prefix p (p ++ s) ≡ some s
unfolding after_prefix
after_prefix-append [] s = refl
after_prefix-append (c ∷ p) s = ground (arith, ==_refl c, after_prefix-append p s)

after_prefix-some : (p s t : List ℕ) → after_prefix p s ≡ some t → s ≡ p ++ t
unfolding after_prefix
after_prefix-some [] s t h = ground (arith, h)
after_prefix-some (c ∷ p) [] t h = ground (arith, h)
after_prefix-some (c ∷ p) (d ∷ s) t h = ground (arith, h, ==_iff c d, after_prefix-some p s t)

digits_of-some :
    (o : Option (List ℕ)) (digits : List ℕ)
    → digits_of o ≡ some digits
    → (o ≡ some digits) × (length digits ≡ 64) × (is_hex_text digits ≡ true)
unfolding digits_of
digits_of-some none digits h = ground (arith, h)
digits_of-some (some s) digits h = ground (arith, h, ==_iff (length s) 64)

digits_of-digits :
    (digits : List ℕ)
    → length digits ≡ 64
    → is_hex_text digits ≡ true
    → digits_of (some digits) ≡ some digits
unfolding digits_of
digits_of-digits digits h q = rw (h, q) refl

-- A header matches exactly if it is the prefix and 64 digits.
header_digits-some :
    (header digits : List ℕ)
    → header_digits header ≡ some digits
    → (header ≡ signature_prefix ++ digits) × (length digits ≡ 64) × (is_hex_text digits ≡ true)
unfolding header_digits
header_digits-some header digits h =
    let parts = digits_of-some (after_prefix signature_prefix header) digits h in
    (after_prefix-some signature_prefix header digits parts.0, parts.1, parts.2)

header_digits-append :
    (digits : List ℕ)
    → length digits ≡ 64
    → is_hex_text digits ≡ true
    → header_digits (signature_prefix ++ digits) ≡ some digits
unfolding header_digits
header_digits-append digits h q =
    ap digits_of (after_prefix-append signature_prefix digits) ∙ digits_of-digits digits h q

hex_to_bytes-of : (digits bs : List ℕ) → hex_pairs digits ≡ some bs → hex_to_bytes digits ≡ bs
unfolding hex_to_bytes
hex_to_bytes-of digits bs h = rw (h, hex_to_bytes) refl

acceptable :
    (encode : List ℕ → List ℕ) (body : RawBody) (bs : List ℕ)
    → to_body_bytes encode body ≡ some bs
    → is_acceptable_raw_body body ≡ true
unfolding to_body_bytes is_acceptable_raw_body
acceptable encode body bs h = ground arith

module _ {X : Type 0} (encode : List ℕ → List ℕ) where
  -- What is relied on of the provider: its comparison of byte strings of one length.
  abbrev pub ComparesEqual : Provider X → Type 0
  ComparesEqual p =
      (a b : List ℕ) → length a ≡ length b → (p.timing_safe_equal a b ≡ true) ↔ (a ≡ b)

  -- A call whose parts but the header are in order, with the digest `mac` of 32 bytes.
  pub record IsReady (p : Provider X) (secret : List ℕ) (body : RawBody) (mac : List ℕ)
      : Type 0 where
    pub secret_given : is_blank secret ≡ false
    pub bytes : List ℕ
    pub body_bytes : to_body_bytes encode body ≡ some bytes
    pub digest : p.hmac_sha256 secret bytes ≡ inr mac
    pub size : length mac ≡ 32
    pub is_bytes : All IsByte mac
    pub compares : ComparesEqual p

  compare_digests-valid :
      (p : Provider X) (mac received : List ℕ)
      → ComparesEqual p
      → (compare_digests encode p mac received ≡ valid) ↔ (mac ≡ received)
  unfolding compare_digests
  compare_digests-valid p mac received h = elim (Bool-cases (length mac == length received)) [
    | inr n ↦ rw n (ground (arith, ==_refl (length mac), n))
    | inl y ↦ ground (arith, y, h mac received ((==_iff (length mac) (length received)).0 y))
  ]

  check_body-ready :
      (p : Provider X) (secret mac bytes digits : List ℕ)
      → p.hmac_sha256 secret bytes ≡ inr mac
      → check_body encode p secret (some bytes) digits
        ≡ compare_digests encode p mac (hex_to_bytes digits)
  unfolding check_body check_digest
  check_body-ready p secret mac bytes digits h = rw (h, check_body, check_digest) refl

  check_header-ready :
      (p : Provider X) (secret : List ℕ) (body : RawBody) (mac header digits : List ℕ)
      → IsReady p secret body mac
      → header_digits header ≡ some digits
      → check_header encode (provided p) secret body header
        ≡ compare_digests encode p mac (hex_to_bytes digits)
  unfolding check_header check_signature
  check_header-ready p secret body mac header digits r h =
      rw (h, r.body_bytes, check_header, check_signature)
        (check_body-ready p secret mac r.bytes digits r.digest)

  matching-digits :
      (p : Provider X) (secret : List ℕ) (body : RawBody) (mac header digits : List ℕ)
      → IsReady p secret body mac
      → header_digits header ≡ some digits
      → check_header encode (provided p) secret body header ≡ valid
      → header ≡ signature_prefix ++ hex_of mac
  matching-digits p secret body mac header digits r e h =
      let parts = header_digits-some header digits e in
      let bytes = hex_pairs-of 32 digits parts.1 parts.2 in
      let same =
        (compare_digests-valid p mac (hex_to_bytes digits) r.compares).0
          (sym (check_header-ready p secret body mac header digits r e) ∙ h) in
      parts.0
      ∙ ap (◌++◌ signature_prefix)
          (sym bytes.2 ∙ ap hex_of (sym (same ∙ hex_to_bytes-of digits bytes.0 bytes.1)))

  check_header-valid :
      (p : Provider X) (secret : List ℕ) (body : RawBody) (mac header : List ℕ)
      → IsReady p secret body mac
      → check_header encode (provided p) secret body header ≡ valid
      → header ≡ signature_prefix ++ hex_of mac
  unfolding check_header
  check_header-valid p secret body mac header r h = elim (Option-cases (header_digits header)) [
    | inl e ↦ ground (arith, e, h)
    | inr (digits, e) ↦ matching-digits p secret body mac header digits r e h
  ]

  check_header-accepts :
      (p : Provider X) (secret : List ℕ) (body : RawBody) (mac : List ℕ)
      → IsReady p secret body mac
      → check_header encode (provided p) secret body (signature_prefix ++ hex_of mac) ≡ valid
  check_header-accepts p secret body mac r =
      let digits = hex_of mac in
      let e =
        header_digits-append digits (omega (arith, length-hex_of mac, r.size))
          (is_hex_text-hex_of mac r.is_bytes) in
      check_header-ready p secret body mac (signature_prefix ++ digits) digits r e
      ∙ (compare_digests-valid p mac (hex_to_bytes digits) r.compares).1
          (sym (hex_to_bytes-of digits mac (hex_pairs-hex_of mac r.is_bytes)))

  validate-ready :
      (p : Provider X) (secret : List ℕ) (body : RawBody) (mac : List ℕ) (header : Option (List ℕ))
      → IsReady p secret body mac
      → validate_webhook_signature encode (provided p) (some secret) body header
        ≡ header_or_missing encode (provided p) secret body header
  unfolding validate_webhook_signature
  validate-ready p secret body mac header r =
      rw (r.secret_given, acceptable encode body r.bytes r.body_bytes) refl

  -- A webhook whose secret is not blank, whose body has bytes and whose digest has 32 bytes is
  -- accepted exactly if its header is `sha256=` and the lower-case hexadecimal digest, for a
  -- provider that compares byte strings of one length by equality.
  pub validate_webhook_signature_iff :
      (p : Provider X) (secret : List ℕ) (body : RawBody) (mac : List ℕ) (header : Option (List ℕ))
      → IsReady p secret body mac
      → (validate_webhook_signature encode (provided p) (some secret) body header ≡ valid)
        ↔ (header ≡ some (signature_prefix ++ hex_of mac))
  validate_webhook_signature_iff p secret body mac none r =
      rw (validate-ready p secret body mac none r) (ground arith)
  validate_webhook_signature_iff p secret body mac (some []) r =
      rw (validate-ready p secret body mac (some []) r) (ground arith)
  validate_webhook_signature_iff p secret body mac (some (c ∷ s)) r = (
    (λ h. ap some (
        check_header-valid p secret body mac (c ∷ s) r
          (sym (validate-ready p secret body mac (some (c ∷ s)) r) ∙ h))),
    (λ h. rw h (
        validate-ready p secret body mac (some (signature_prefix ++ hex_of mac)) r
        ∙ check_header-accepts p secret body mac r)),
  )

  pub validate-missing :
      (acquired : Acquired X) (secret : Option (List ℕ)) (body : RawBody)
      → validate_webhook_signature encode acquired secret body none ≢ valid
  unfolding validate_webhook_signature
  validate-missing acquired none body = ground arith
  validate-missing acquired (some secret) body = ground arith

  header_or_missing-format :
      (acquired : Acquired X) (secret : List ℕ) (body : RawBody) (header : List ℕ)
      → header_digits header ≡ none
      → header_or_missing encode acquired secret body (some header) ≢ valid
  unfolding check_header
  header_or_missing-format acquired secret body [] e = cc
  header_or_missing-format acquired secret body (c ∷ s) e = ground (arith, e)

  -- A header of another form is never valid.
  pub validate-format :
      (acquired : Acquired X) (secret : Option (List ℕ)) (body : RawBody) (header : List ℕ)
      → header_digits header ≡ none
      → validate_webhook_signature encode acquired secret body (some header) ≢ valid
  unfolding validate_webhook_signature
  validate-format acquired none body header e = ground arith
  validate-format acquired (some secret) body header e =
      ground (arith, header_or_missing-format acquired secret body header e)

  -- A body of bytes with a digest of 32 bytes is in order.
  pub bytes-IsReady :
      (p : Provider X) (secret bs mac : List ℕ)
      → is_blank secret ≡ false
      → p.hmac_sha256 secret bs ≡ inr mac
      → length mac ≡ 32
      → All IsByte mac
      → ComparesEqual p
      → IsReady p secret (Sig.bytes bs) mac
  unfolding to_body_bytes
  bytes-IsReady p secret bs mac given digest size small compares = record {
    secret_given = given;
    bytes = bs;
    body_bytes = refl;
    digest = digest;
    size = size;
    is_bytes = small;
    compares = compares;
  }
