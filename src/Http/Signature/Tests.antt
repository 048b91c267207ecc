-- ===== src/Http/Signature/Tests.antt =====
-- A webhook that is signed with a provider whose digests are constant, and the theorem on it.
use wats.Base.{
  ℕ, zero, suc, ◌≡◌, ◌↔◌, refl, inr, Bool, true, false, ◌&&◌, some, List, [], ◌∷◌, ◌++◌, All, arith,
  ◌==◌, ==_iff,
}
use wats.Graph.RetryAfter.{is_space}
use wats.Http.Signature.{
  Provider, provided, text, valid, signature_prefix, validate_webhook_signature, to_body_bytes,
}
use wats.Http.Signature.Hex.{hex_of, IsByte}
use wats.Http.Signature.Accepted.{IsReady, validate_webhook_signature_iff}

abbrev repeat : ℕ → ℕ → List ℕ
repeat zero b = []
repeat (suc n) b = b ∷ repeat n b

abbrev same_bytes : List ℕ → List ℕ → Bool
same_bytes [] [] = true
same_bytes [] (b ∷ bs) = false
same_bytes (a ∷ xs) [] = false
same_bytes (a ∷ xs) (b ∷ bs) = a == b && same_bytes xs bs

same_bytes_iff : (a b : List ℕ) → (same_bytes a b ≡ true) ↔ (a ≡ b)
same_bytes_iff [] [] = ground arith
same_bytes_iff [] (b ∷ bs) = ground arith
same_bytes_iff (a ∷ xs) [] = ground arith
same_bytes_iff (a ∷ xs) (b ∷ bs) = ground (arith, ==_iff a b, same_bytes_iff xs bs)

abbrev mac : List ℕ
mac = repeat 32 171

abbrev provider : Provider ℕ
provider = record { hmac_sha256 = λ key body. inr mac; timing_safe_equal = same_bytes }

abbrev secret : List ℕ
secret = b'k' ∷ []

abbrev encode : List ℕ → List ℕ
encode s = s

repeat-IsByte : (n : ℕ) → All IsByte (repeat n 171)
repeat-IsByte zero = tt
repeat-IsByte (suc n) = (omega arith, repeat-IsByte n)

ready : IsReady encode provider secret (text secret) mac
unfolding is_space to_body_bytes
ready = record {
  secret_given = refl;
  bytes = secret;
  body_bytes = refl;
  digest = refl;
  size = refl;
  is_bytes = repeat-IsByte 32;
  compares = λ a b h. same_bytes_iff a b;
}

validate_webhook_signature_iff_example :
    (validate_webhook_signature encode
        (provided provider)
        (some secret)
        (text secret)
        (some (signature_prefix ++ hex_of mac))
      ≡ valid)
    ↔ (some (signature_prefix ++ hex_of mac) ≡ some (signature_prefix ++ hex_of mac))
validate_webhook_signature_iff_example =
    validate_webhook_signature_iff encode provider secret (text secret) mac
      (some (signature_prefix ++ hex_of mac)) ready
