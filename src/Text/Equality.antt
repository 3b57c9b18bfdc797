-- ===== src/Text/Equality.antt =====
-- That the test on texts decides their equality.
use prelay_server.Base.{◌≡◌, refl, [], ◌∷◌, true, arith}
use prelay_server.Text.{Text, text_eq}

pub text_eq_refl : (text : Text) → text_eq text text ≡ true
unfolding text_eq
text_eq_refl [] = refl
text_eq_refl (c ∷ cs) = ground (arith, text_eq_refl cs)

pub text_eq_sound : (xs ys : Text) → text_eq xs ys ≡ true → xs ≡ ys
unfolding text_eq
text_eq_sound [] [] h = refl
text_eq_sound [] (y ∷ ys) h = absurd (ground arith)
text_eq_sound (x ∷ xs) [] h = absurd (ground arith)
text_eq_sound (x ∷ xs) (y ∷ ys) h = ground (arith, h, text_eq_sound xs ys)

pub text_eq_sym : (xs ys : Text) → text_eq xs ys ≡ text_eq ys xs
unfolding text_eq
text_eq_sym [] [] = refl
text_eq_sym [] (y ∷ ys) = refl
text_eq_sym (x ∷ xs) [] = refl
text_eq_sym (x ∷ xs) (y ∷ ys) = ground (arith, text_eq_sym xs ys)
