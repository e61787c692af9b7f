-- ===== src/Serial/Digits.antt =====
-- `put_dec`: the digits that it sends, read back.
use mathlib.Core.List.{append_assoc, append-nil}
use cyptos.Prelude.{
  ℕ, zero, suc, ◌+◌, ◌-◌, ◌*◌, ◌/◌, ◌%◌, ◌^◌, ◌<◌, ◌≤◌, ◌≡◌, refl, ◌∙◌, sym, ap, arith, List, [],
  ◌∷◌, ◌++◌, lt→ltb, ==_ne,
}
use cyptos.Serial.{Console, dec_digits, put_back, put_dec, putc}

-- The number that a text of decimal digits stands for, after the digits of `acc`.
abbrev pub read_dec : ℕ → List ℕ → ℕ
read_dec acc [] = acc
read_dec acc (d ∷ ds) = read_dec (10 * acc + (d - b'0')) ds

abbrev pub AreDigits : List ℕ → Type 0
AreDigits [] = Unit
AreDigits (d ∷ ds) = (b'0' ≤ d) × (d ≤ b'9') × AreDigits ds

-- The digits of a number of at most `fuel` digits, the most significant one last.
abbrev back : List ℕ → List ℕ
back [] = []
back (d ∷ ds) = back ds ++ d ∷ []

read_dec-snoc :
    (acc : ℕ) (ds : List ℕ) (d : ℕ)
    → read_dec acc (ds ++ d ∷ []) ≡ 10 * read_dec acc ds + (d - b'0')
read_dec-snoc acc [] d = refl
read_dec-snoc acc (c ∷ ds) d = read_dec-snoc (10 * acc + (c - b'0')) ds d

AreDigits-snoc :
    (ds : List ℕ) (d : ℕ) → AreDigits ds → b'0' ≤ d → d ≤ b'9' → AreDigits (ds ++ d ∷ [])
AreDigits-snoc [] d h lo hi = (lo, hi, tt)
AreDigits-snoc (c ∷ ds) d (l, u, h) lo hi = (l, u, AreDigits-snoc ds d h lo hi)

-- With room for all digits, the loop leaves nothing of the number.
read_dec-dec_digits : (fuel n : ℕ) → n < 10 ^ fuel → read_dec 0 (back (dec_digits fuel n)) ≡ n
unfolding dec_digits
read_dec-dec_digits zero n lt = omega arith
read_dec-dec_digits (suc fuel) zero lt = refl
read_dec-dec_digits (suc fuel) (suc n) lt =
    let ih : read_dec 0 (back (dec_digits fuel (suc n / 10))) ≡ suc n / 10 =
      read_dec-dec_digits fuel (suc n / 10) (omega arith) in
    rw (lt→ltb 0 (suc n) (omega arith)) (
      read_dec-snoc 0 (back (dec_digits fuel (suc n / 10))) (b'0' + suc n % 10) ∙ omega (arith, ih))

dec_digits-AreDigits : (fuel n : ℕ) → AreDigits (back (dec_digits fuel n))
unfolding dec_digits
dec_digits-AreDigits zero n = tt
dec_digits-AreDigits (suc fuel) zero = tt
dec_digits-AreDigits (suc fuel) (suc n) = rw (lt→ltb 0 (suc n) (omega arith)) (
    AreDigits-snoc (back (dec_digits fuel (suc n / 10))) (b'0' + suc n % 10)
      (dec_digits-AreDigits fuel (suc n / 10)) (omega arith) (omega arith))

-- The second loop sends them from the last.
put_back-back :
    (buf : List ℕ) (k : Console) → put_back buf k ≡ record k { sent = k.sent ++ back buf }
unfolding put_back putc
put_back-back [] k = ap {A = List ℕ} (λ ds. record k { sent = ds }) (sym (append-nil k.sent))
put_back-back (d ∷ buf) k =
    ap (putc d) (put_back-back buf k)
    ∙ ap {A = List ℕ} (λ ds. record k { sent = ds }) (append_assoc k.sent (back buf) (d ∷ []))

-- For a number below 2 ^ 64, the twenty bytes of the buffer are enough: `put_dec` sends decimal digits, at
-- most twenty of them, and they read back as the number.
pub put_dec_lem :
    (n : ℕ) (k : Console)
    → n < 2 ^ 64
    → (ds : List ℕ) × (put_dec n k ≡ record k { sent = k.sent ++ ds })
      × AreDigits ds
      × (read_dec 0 ds ≡ n)
unfolding put_dec putc
put_dec_lem zero k small = (b'0' ∷ [], refl, (omega arith, omega arith, tt), refl)
put_dec_lem (suc n) k small = (
  back (dec_digits 20 (suc n)),
  rw (==_ne (suc n) 0 (λ e. absurd (omega arith))) (put_back-back (dec_digits 20 (suc n)) k),
  dec_digits-AreDigits 20 (suc n),
  read_dec-dec_digits 20 (suc n) (omega arith),
)
