-- ===== src/Http/Challenge/Handshake.antt =====
-- A challenge is echoed exactly if the caller subscribes with the configured token.
use wats.Base.{
  ◌≡◌, ◌≢◌, ◌↔◌, true, false, Option, none, some, [], ◌∷◌, length, arith, ◌==◌, ==_iff, ==_refl,
  Bool-cases, inl, inr,
}
use wats.Base.Text.{Text, codes, text_eq_iff}
use wats.Http.Signature.{Provider, provided, is_blank}
use wats.Http.Signature.Accepted.{ComparesEqual}
use wats.Http.Challenge.{
  echo, is_subscribe, answer, safe_compare_tokens, is_token, check_token, check_provider,
  verify_webhook_challenge,
}

is_subscribe_iff :
    (mode : Option Text) → (is_subscribe mode ≡ true) ↔ (mode ≡ some (codes "subscribe"))
is_subscribe_iff none = ground arith
is_subscribe_iff (some mode) = ground (arith, text_eq_iff mode (codes "subscribe"))

answer-echo :
    {X : Type 0} (challenge : Option Text) (c : Text)
    → (answer {X = X} challenge ≡ echo c) ↔ ((challenge ≡ some c) × (c ≢ []))
unfolding answer
answer-echo none c = ground arith
answer-echo (some []) c = ground arith
answer-echo (some (d ∷ s)) c = ground arith

-- The token's bytes are those of the configured one.
abbrev pub HasToken : (Text → Text) → Text → Option Text → Type 0
HasToken encode expected none = ⊥
HasToken encode expected (some token) = encode expected ≡ encode token

module _ {X : Type 0} (encode : Text → Text) where
  safe_compare_tokens_iff :
      (p : Provider X) (expected token : Text)
      → ComparesEqual encode p
      → (safe_compare_tokens encode p expected token ≡ true) ↔ (encode expected ≡ encode token)
  unfolding safe_compare_tokens
  safe_compare_tokens_iff p expected token h =
      elim (Bool-cases (length (encode expected) == length (encode token))) [
        | inr n ↦ rw n (ground (arith, ==_refl (length (encode expected)), n))
        | inl y ↦ ground (
          arith,
          y,
          h (encode expected) (encode token)
              ((==_iff (length (encode expected)) (length (encode token))).0 y),
        )
      ]

  is_token_iff :
      (p : Provider X) (expected : Text) (token : Option Text)
      → ComparesEqual encode p
      → (is_token encode p expected token ≡ true) ↔ HasToken encode expected token
  unfolding is_token
  is_token_iff p expected none h = ground arith
  is_token_iff p expected (some token) h = safe_compare_tokens_iff p expected token h

  check_token-echo :
      (p : Provider X) (expected : Text) (token challenge : Option Text) (c : Text)
      → (check_token encode p expected token challenge ≡ echo c)
        ↔ ((is_token encode p expected token ≡ true) × (challenge ≡ some c) × (c ≢ []))
  unfolding check_token
  check_token-echo p expected token challenge c = ground (arith, answer-echo {X = X} challenge c)

  -- With a provider that compares byte strings of one length by equality, the handshake echoes a
  -- text exactly if the configured token is not blank, the mode is `subscribe`, the caller's token
  -- has the bytes of the configured one, and the text is the challenge and not empty.
  pub verify_webhook_challenge_iff :
      (p : Provider X) (expected : Text) (mode token challenge : Option Text) (c : Text)
      → ComparesEqual encode p
      → (verify_webhook_challenge encode (provided p) expected mode token challenge ≡ echo c) ↔ (
          (is_blank expected ≡ false)
          × (mode ≡ some (codes "subscribe"))
          × HasToken encode expected token
          × (challenge ≡ some c)
          × (c ≢ []))
  unfolding verify_webhook_challenge check_provider
  verify_webhook_challenge_iff p expected mode token challenge c h = ground (
    arith,
    is_subscribe_iff mode,
    is_token_iff p expected token h,
    check_token-echo p expected token challenge c,
  )
