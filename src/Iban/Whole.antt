-- ===== src/Iban/Whole.antt =====
-- The remainder that is taken nine digits at a time is that of the whole number.
use film_bill.Base.{
  ◌≡◌, refl, sym, ◌∙◌, ap, ℕ, zero, suc, ◌+◌, ◌-◌, ◌*◌, ◌%◌, ◌≤◌, ◌<◌, [], ◌∷◌, ◌++◌, arith, length,
  take, drop, text_has_equality, take-append-drop,
}
use film_bill.Base.Text.{Text}
use film_bill.Base.Digits.{show, read, read_from}
use film_bill.Base.Digits.Reading.{read-show}
use film_bill.Iban.{expand, rearranged, remainder_from, mod_97}

pub read_from-append :
    (acc : ℕ) (s t : Text) → read_from acc (s ++ t) ≡ read_from (read_from acc s) t
read_from-append acc [] t = refl
read_from-append acc (c ∷ s) t = read_from-append (acc * 10 + (c - b'0')) s t

-- Only the remainder of what was read so far counts.
read_from-mod : (s : Text) (m n : ℕ) → m % 97 ≡ n % 97 → read_from m s % 97 ≡ read_from n s % 97
read_from-mod [] m n h = h
read_from-mod (c ∷ s) m n h =
    read_from-mod s (m * 10 + (c - b'0')) (n * 10 + (c - b'0')) (omega (arith, h))

drop-shorter : (k : ℕ) (s : Text) → length (drop k s) ≤ length s
drop-shorter zero s = omega arith
drop-shorter (suc k) [] = omega arith
drop-shorter (suc k) (c ∷ s) = omega (arith, drop-shorter k s)

remainder_from-read :
    (f r : ℕ) (s : Text) → length s ≤ f → r < 97 → remainder_from f r s ≡ read_from r s % 97
unfolding remainder_from
remainder_from-read zero r [] h k = omega (arith, k)
remainder_from-read zero r (c ∷ s) h k = absurd (omega (arith, h))
remainder_from-read (suc f) r [] h k = omega (arith, k)
remainder_from-read (suc f) r (c ∷ s) h k =
    let chunk = take 9 (c ∷ s) in
    let rest = drop 9 (c ∷ s) in
    let so_far = read (show r ++ chunk) in
    let split : read_from (read_from r chunk) rest ≡ read_from r (c ∷ s) =
      sym (read_from-append r chunk rest) ∙ ap (read_from r) (take-append-drop 9 (c ∷ s)) in
    let shown : so_far ≡ read_from r chunk =
      read_from-append 0 (show r) chunk ∙ ap (λ n. read_from n chunk) (read-show r) in
    remainder_from-read f (so_far % 97) rest (omega (arith, h, drop-shorter 8 s)) (omega arith)
    ∙ read_from-mod rest (so_far % 97) so_far (omega arith)
    ∙ rw (shown, split) refl

-- `_mod_97` is the remainder of the whole rearranged number.
pub mod_97_whole : (iban : Text) → mod_97 iban ≡ read (expand (rearranged iban)) % 97
unfolding mod_97
mod_97_whole iban =
    remainder_from-read (length (expand (rearranged iban))) 0 (expand (rearranged iban))
      (omega arith) (omega arith)
