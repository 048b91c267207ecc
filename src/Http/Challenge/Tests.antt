-- ===== src/Http/Challenge/Tests.antt =====
-- A handshake with a provider that compares byte by byte.
use wats.Base.{ℕ, ◌≡◌, ◌≢◌, ◌↔◌, inr, false, Option, some, []}
use wats.Base.Text.{Text, codes, text_eq, text_eq_iff}
use wats.Http.Signature.{Provider, provided, is_blank}
use wats.Http.Challenge.{echo, verify_webhook_challenge}
use wats.Http.Challenge.Handshake.{HasToken, verify_webhook_challenge_iff}

abbrev provider : Provider ℕ
provider = record { hmac_sha256 = λ key body. inr []; timing_safe_equal = text_eq }

abbrev encode : Text → Text
encode s = s

verify_webhook_challenge_iff_example :
    (verify_webhook_challenge encode
        (provided provider)
        (codes "token")
        (some (codes "subscribe"))
        (some (codes "token"))
        (some (codes "42"))
      ≡ echo (codes "42"))
    ↔ ((is_blank (codes "token") ≡ false)
        × (◌≡◌ {A = Option Text} (some (codes "subscribe")) (some (codes "subscribe")))
        × HasToken encode (codes "token") (some (codes "token"))
        × (◌≡◌ {A = Option Text} (some (codes "42")) (some (codes "42")))
        × (codes "42" ≢ []))
verify_webhook_challenge_iff_example =
    verify_webhook_challenge_iff encode provider (codes "token") (some (codes "subscribe"))
      (some (codes "token")) (some (codes "42")) (codes "42") (λ a b h. text_eq_iff a b)
