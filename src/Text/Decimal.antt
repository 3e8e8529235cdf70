-- ===== src/Text/Decimal.antt =====
-- Decimal digits: printing a number and reading it back.
use Prim.Native.Char.{code}
use Prim.Native.String.{String}
use native.Mathlib.Nat.{pow-suc}
use payflow_x.Prelude.{
  ℕ, zero, suc, ◌+◌, ◌-◌, ◌*◌, ◌/◌, ◌%◌, ◌^◌, ◌≤◌, ◌<◌, ◌≡◌, refl, Bool, true, ◌&&◌, List, [], ◌∷◌,
  Option, none, some, ◌++◌, arith, ltb, leb, if◌then◌else◌, Bool-cases, inl, inr,
}
use payflow_x.Prelude.Lists.{length, replicate, length-append, length-replicate, All, All-append}

abbrev pub Text : Type 0
Text = List ℕ

-- A text that is there and not empty.
abbrev pub truthy : Option Text → Option Text
truthy none = none
truthy (some []) = none
truthy (some (c ∷ t)) = some (c ∷ t)

abbrev pub codes : String → Text
codes String.[] = []
codes (String.◌∷◌ c s) = code c ∷ codes s

abbrev pub is_digit : ℕ → Bool
is_digit c = leb b'0' c && leb c b'9'

abbrev pub IsDigit : ℕ → Type 0
IsDigit c = (b'0' ≤ c) × (c ≤ b'9')

pub IsDigit→is_digit : (c : ℕ) → IsDigit c → is_digit c ≡ true
IsDigit→is_digit c h = ground arith

-- `BigInt(text)` of a text of digits; of the empty text it is 0.
unfoldable pub value_from : ℕ → Text → ℕ
value_from n [] = n
value_from n (c ∷ s) = value_from (n * 10 + (c - b'0')) s

unfoldable pub value : Text → ℕ
value s = value_from 0 s

pub value_from-append : (n : ℕ) (s t : Text) → value_from n (s ++ t) ≡ value_from (value_from n s) t
unfolding value_from
value_from-append n [] t = refl
value_from-append n (c ∷ s) t = value_from-append (n * 10 + (c - b'0')) s t

-- Zeros behind a number multiply it by a power of ten.
pub value_from-zeros : (n k : ℕ) → value_from n (replicate k b'0') ≡ n * 10 ^ k
unfolding value_from
value_from-zeros n zero = omega arith
value_from-zeros n (suc k) = rw pow-suc (omega (arith, value_from-zeros (n * 10 + 0) k))

-- `n.toString()` for a bigint n that is not negative; the fuel bounds the number of digits.
print : ℕ → ℕ → Text
print zero n = []
print (suc f) n =
    let shorter = print f (n / 10) ++ (b'0' + n % 10) ∷ [] in
    if ltb n 10 then (b'0' + n) ∷ [] else shorter

unfoldable pub to_decimal : ℕ → Text
unfolding print
to_decimal n = print (suc n) n

value-print : (f n : ℕ) → n < f → value_from 0 (print f n) ≡ n
unfolding print value_from
value-print zero n h = elim h [ ]
value-print (suc f) n h =
    ground
      (arith, value_from-append 0 (print f (n / 10)) ((b'0' + n % 10) ∷ []), value-print f (n / 10))

-- A printed number is read back.
pub value-to_decimal : (n : ℕ) → value (to_decimal n) ≡ n
unfolding value to_decimal
value-to_decimal n = value-print (suc n) n (omega arith)

All-IsDigit-print : (f n : ℕ) → All IsDigit (print f n)
unfolding print
All-IsDigit-print zero n = tt
All-IsDigit-print (suc f) n = elim (Bool-cases (ltb n 10)) [
  | inl small ↦ ground arith
  | inr big ↦ ground (
    arith,
    All-append IsDigit (print f (n / 10)) ((b'0' + n % 10) ∷ []) (All-IsDigit-print f (n / 10)),
  )
]

pub All-IsDigit-to_decimal : (n : ℕ) → All IsDigit (to_decimal n)
unfolding to_decimal
All-IsDigit-to_decimal n = All-IsDigit-print (suc n) n

print-pos : (f n : ℕ) → 0 < length (print (suc f) n)
unfolding print
print-pos f n = ground (arith, length-append {0} (print f (n / 10)) ((b'0' + n % 10) ∷ []))

pub to_decimal-pos : (n : ℕ) → 0 < length (to_decimal n)
unfolding to_decimal
to_decimal-pos n = print-pos n n

length-print : (k f n : ℕ) → n < 10 ^ suc k → length (print f n) ≤ suc k
unfolding print
length-print k zero n h = omega arith
length-print zero (suc f) n h = ground (arith, pow-suc 10 0)
length-print (suc k) (suc f) n h = ground (
  arith,
  length-print k f (n / 10),
  pow-suc 10 (suc k),
  length-append {0} (print f (n / 10)) ((b'0' + n % 10) ∷ []),
)

-- A number below 10^(k + 1) has at most k + 1 digits.
pub length-to_decimal : (k n : ℕ) → n < 10 ^ suc k → length (to_decimal n) ≤ suc k
unfolding to_decimal
length-to_decimal k n h = length-print k (suc n) n h

-- `text.padStart(n, "0")`
unfoldable pub pad_start : ℕ → Text → Text
pad_start n s = replicate (n - length s) b'0' ++ s

-- `text.padEnd(n, "0")`
unfoldable pub pad_end : ℕ → Text → Text
pad_end n s = s ++ replicate (n - length s) b'0'

pub All-IsDigit-zeros : (n : ℕ) → All IsDigit (replicate n b'0')
All-IsDigit-zeros zero = tt
All-IsDigit-zeros (suc n) = ((omega arith, omega arith), All-IsDigit-zeros n)

value-zeros : (n : ℕ) (s : Text) → value_from 0 (replicate n b'0' ++ s) ≡ value_from 0 s
unfolding value_from
value-zeros zero s = refl
value-zeros (suc n) s = value-zeros n s

pub value-pad_start : (n : ℕ) (s : Text) → value (pad_start n s) ≡ value s
unfolding value pad_start
value-pad_start n s = value-zeros (n - length s) s

pub length-pad_start : (n : ℕ) (s : Text) → length s ≤ n → length (pad_start n s) ≡ n
unfolding pad_start
length-pad_start n s h = omega (
  arith,
  length-append {0} (replicate (n - length s) b'0') s,
  length-replicate {A = ℕ} (n - length s) b'0',
)

pub All-IsDigit-pad_start : (n : ℕ) (s : Text) → All IsDigit s → All IsDigit (pad_start n s)
unfolding pad_start
All-IsDigit-pad_start n s h =
    All-append IsDigit (replicate (n - length s) b'0') s (All-IsDigit-zeros (n - length s)) h
