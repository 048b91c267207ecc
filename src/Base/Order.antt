-- ===== src/Base/Order.antt =====
-- The order of texts is strict and total.
use wats.Base.{◌≡◌, ◌≢◌, refl, true, false, ◌||◌, [], ◌∷◌, arith}
use wats.Base.Text.{Text, text_lt}

pub text_lt_asym : (a b : Text) → text_lt a b ≡ true → text_lt b a ≡ false
text_lt_asym [] [] h = cc
text_lt_asym [] (d ∷ t) h = refl
text_lt_asym (c ∷ s) [] h = cc
text_lt_asym (c ∷ s) (d ∷ t) h = ground (arith, text_lt_asym s t)

pub text_lt_total : (a b : Text) → a ≢ b → text_lt a b ≡ false → text_lt b a ≡ true
text_lt_total [] [] ne h = absurd (ne refl)
text_lt_total [] (d ∷ t) ne h = cc
text_lt_total (c ∷ s) [] ne h = refl
text_lt_total (c ∷ s) (d ∷ t) ne h = ground (arith, text_lt_total s t)

-- What is below `b` is below `a`, or `a` is below `b`.
pub text_lt_split : (n a b : Text) → text_lt n b ≡ true → (text_lt n a || text_lt a b) ≡ true
text_lt_split [] [] b h = h
text_lt_split [] (c ∷ a) b h = refl
text_lt_split (e ∷ n) a [] h = cc
text_lt_split (e ∷ n) [] (d ∷ b) h = refl
text_lt_split (e ∷ n) (c ∷ a) (d ∷ b) h = ground (arith, text_lt_split n a b)

pub text_lt_trans : (a b c : Text) → text_lt a b ≡ true → text_lt b c ≡ true → text_lt a c ≡ true
text_lt_trans a b c h k = ground (arith, text_lt_split a c b h, text_lt_asym b c k)
