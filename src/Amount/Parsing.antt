-- ===== src/Amount/Parsing.antt =====
-- What the two patterns of money.ts match, and what a parsed rate is.
use native.Mathlib.Nat.{pow-suc}
use payflow_x.Prelude.{
  ℕ, zero, suc, ◌^◌, ◌<◌, ◌≡◌, refl, Bool, true, false, Option, none, some, [], ◌∷◌, ◌++◌, arith,
  ◌==◌,
}
use payflow_x.Prelude.Result.{ok}
use payflow_x.Prelude.Lists.{length, All}
use payflow_x.Text.{Text, IsDigit, IsDigit→is_digit, trim_start_zeros, trim_end_zeros}
use payflow_x.Amount.{
  span_digits, match_rate, match_amount, Rate, rate_of, parse_rate, parse_amount, or_empty,
}

-- The digits in front of a dot, or of the end, are what `\d+` takes.
pub span_digits-append :
    (d r : Text) → All IsDigit d → (span_digits r ≡ ([], r)) → span_digits (d ++ r) ≡ (d, r)
unfolding span_digits
span_digits-append [] r h e = e
span_digits-append (c ∷ d) r h e = rw (IsDigit→is_digit c h.0, span_digits-append d r h.1 e)

span_digits_dot : (r : Text) → span_digits (b'.' ∷ r) ≡ ([], b'.' ∷ r)
unfolding span_digits
span_digits_dot r = refl

span_digits-All : (d : Text) → All IsDigit d → span_digits d ≡ (d, [])
unfolding span_digits
span_digits-All [] h = refl
span_digits-All (c ∷ d) h = rw (IsDigit→is_digit c h.0, span_digits-All d h.1)

-- A text `digits.digits` is matched with these two groups.
pub match_rate_decimal :
    (w f : Text)
    → All IsDigit w
    → All IsDigit f
    → 0 < length w
    → 0 < length f
    → match_rate (w ++ b'.' ∷ f) ≡ some (w, some f)
unfolding match_rate
match_rate_decimal [] f hw hf pw pf = elim pw [ ]
match_rate_decimal w [] hw hf pw pf = elim pf [ ]
match_rate_decimal (c ∷ w) (d ∷ f) hw hf pw pf =
    rw
      (
        span_digits-append (c ∷ w) (b'.' ∷ d ∷ f) hw (span_digits_dot (d ∷ f)),
        span_digits-All (d ∷ f) hf,
      )
      (ground arith)

-- The minus in front, if there is one.
abbrev pub sign_text : Bool → Text
sign_text true = b'-' ∷ []
sign_text false = []

-- So is the amount, with or without a minus in front.
pub match_amount_decimal :
    (n : Bool) (w f : Text)
    → All IsDigit w
    → All IsDigit f
    → 0 < length w
    → 0 < length f
    → match_amount (sign_text n ++ (w ++ b'.' ∷ f)) ≡ some (n, w, some f)
unfolding match_amount
match_amount_decimal n [] f hw hf pw pf = elim pw [ ]
match_amount_decimal true (c ∷ w) f hw hf pw pf = rw (match_rate_decimal (c ∷ w) f hw hf pw pf)
match_amount_decimal false (c ∷ w) f hw hf pw pf =
    let e : (c == b'-') ≡ false = ground (arith, hw.0) in
    rw (e, match_rate_decimal (c ∷ w) f hw hf pw pf)

-- Such a text parses to its sign and its two runs of digits, without the zeros at their ends.
pub parse_amount_decimal :
    (n : Bool) (w f : Text)
    → All IsDigit w
    → All IsDigit f
    → 0 < length w
    → 0 < length f
    → parse_amount (sign_text n ++ (w ++ b'.' ∷ f))
      ≡ ok (record { negative = n; whole = trim_start_zeros w; fraction = trim_end_zeros f })
unfolding parse_amount
parse_amount_decimal n w f hw hf pw pf = rw (match_amount_decimal n w f hw hf pw pf)

pub pow-pos : (k : ℕ) → 0 < 10 ^ k
pow-pos zero = omega arith
pow-pos (suc k) = rw pow-suc (omega (arith, pow-pos k))

rate_of_pos :
    (raw : Text) (m : Option (Text × Option Text)) {r : Rate}
    → rate_of raw m ≡ ok r
    → (0 < r.numerator) × (0 < r.denominator)
unfolding rate_of
rate_of_pos raw none h = cc
rate_of_pos raw (some (w, f)) h = ground (arith, pow-pos (length (or_empty f)))

-- A rate that is accepted is positive, and so is its denominator.
pub parse_rate_pos :
    (raw : Text) {r : Rate} → parse_rate raw ≡ ok r → (0 < r.numerator) × (0 < r.denominator)
unfolding parse_rate
parse_rate_pos raw {r} h = rate_of_pos raw (match_rate raw) h
