-- ===== src/Base/Text/Order.antt =====
-- `<` on texts is a strict total order.
use film_bill.Base.{◌≡◌, refl, true, false, [], ◌∷◌, arith, text_eq}
use film_bill.Base.Text.{Text, text_ltb}

pub text_ltb_irrefl : (s : Text) → text_ltb s s ≡ false
unfolding text_ltb
text_ltb_irrefl [] = refl
text_ltb_irrefl (c ∷ s) = ground (arith, text_ltb_irrefl s)

pub text_ltb_trans :
    (s t u : Text) → text_ltb s t ≡ true → text_ltb t u ≡ true → text_ltb s u ≡ true
unfolding text_ltb
text_ltb_trans s t [] h k = cc
text_ltb_trans s [] (e ∷ u) h k = cc
text_ltb_trans [] (d ∷ t) (e ∷ u) h k = refl
text_ltb_trans (c ∷ s) (d ∷ t) (e ∷ u) h k = ground (arith, text_ltb_trans s t u)

pub text_ltb_asymm : (s t : Text) → text_ltb s t ≡ true → text_ltb t s ≡ false
unfolding text_ltb
text_ltb_asymm s [] h = cc
text_ltb_asymm [] (d ∷ t) h = refl
text_ltb_asymm (c ∷ s) (d ∷ t) h = ground (arith, text_ltb_asymm s t)

pub text_ltb_total : (s t : Text) → text_ltb s t ≡ false → text_ltb t s ≡ false → text_eq s t ≡ true
unfolding text_ltb text_eq
text_ltb_total [] [] h k = refl
text_ltb_total [] (d ∷ t) h k = cc
text_ltb_total (c ∷ s) [] h k = cc
text_ltb_total (c ∷ s) (d ∷ t) h k = ground (arith, text_ltb_total s t)

pub text_ltb_ne : (s t : Text) → text_ltb s t ≡ true → text_eq s t ≡ false
unfolding text_ltb text_eq
text_ltb_ne s [] h = cc
text_ltb_ne [] (d ∷ t) h = refl
text_ltb_ne (c ∷ s) (d ∷ t) h = ground (arith, text_ltb_ne s t)

-- What is not below is so transitively.
pub text_nlt_trans :
    (s t u : Text) → text_ltb t s ≡ false → text_ltb u t ≡ false → text_ltb u s ≡ false
unfolding text_ltb
text_nlt_trans [] t u h k = refl
text_nlt_trans (c ∷ s) [] u h k = cc
text_nlt_trans (c ∷ s) (d ∷ t) [] h k = cc
text_nlt_trans (c ∷ s) (d ∷ t) (e ∷ u) h k = ground (arith, text_nlt_trans s t u)
