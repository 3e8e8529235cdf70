-- ===== src/Text/Trim.antt =====
-- Dropping zeros from a run of digits, and what that keeps.
use native.Mathlib.Nat.{zero-add}
use mathlib.Core.List.{append_assoc}
use payflow_x.Prelude.{
  ℕ, zero, suc, ◌+◌, ◌*◌, ◌^◌, ◌++◌, sym, ◌-◌, ◌≤◌, ◌≡◌, refl, ap, ◌&&◌, [], ◌∷◌, arith, ◌==◌,
  ==_iff, if◌then◌else◌, Bool-cases, inl, inr,
}
use payflow_x.Prelude.Lists.{length, replicate}
use payflow_x.Text.Decimal.{
  Text, is_digit, value_from, value, pad_end, value_from-append, value_from-zeros,
}

-- `text.replace(/^0+(?=\d)/, "")`
unfoldable pub trim_start_zeros : Text → Text
trim_start_zeros [] = []
trim_start_zeros (c ∷ []) = c ∷ []
trim_start_zeros (c ∷ d ∷ s) =
    let rest = trim_start_zeros (d ∷ s) in if c == b'0' && is_digit d then rest else c ∷ d ∷ s

-- `text.replace(/0+$/, "")`
add_unless_zero : ℕ → Text → Text
add_unless_zero c [] = if c == b'0' then [] else c ∷ []
add_unless_zero c (d ∷ s) = c ∷ d ∷ s

unfoldable pub trim_end_zeros : Text → Text
unfolding add_unless_zero
trim_end_zeros [] = []
trim_end_zeros (c ∷ s) = add_unless_zero c (trim_end_zeros s)

pub value-trim_start_zeros : (s : Text) → value (trim_start_zeros s) ≡ value s
unfolding value value_from trim_start_zeros
value-trim_start_zeros [] = refl
value-trim_start_zeros (c ∷ []) = refl
value-trim_start_zeros (c ∷ d ∷ s) = ground (arith, value-trim_start_zeros (d ∷ s))

pub length-trim_start_zeros : (s : Text) → length (trim_start_zeros s) ≤ length s
unfolding trim_start_zeros
length-trim_start_zeros [] = omega arith
length-trim_start_zeros (c ∷ []) = omega arith
length-trim_start_zeros (c ∷ d ∷ s) = ground (arith, length-trim_start_zeros (d ∷ s))

pub length-trim_end_zeros : (s : Text) → length (trim_end_zeros s) ≤ length s
unfolding trim_end_zeros
length-trim_end_zeros [] = omega arith
length-trim_end_zeros (c ∷ s) = ground (arith, length-trim_end_zeros s)

pad_end-add_unless_zero :
    (c : ℕ) (s t : Text)
    → length t ≤ length s
    → pad_end (length s) t ≡ s
    → pad_end (suc (length s)) (add_unless_zero c t) ≡ c ∷ s
unfolding pad_end add_unless_zero
pad_end-add_unless_zero c s [] h e = elim (Bool-cases (c == b'0')) [
  | inl z ↦ rw z (
      let k : suc (length s) - 0 ≡ suc (length s - 0) = omega arith in
      rw k (cc (e, (==_iff c b'0').0 z)))
  | inr nz ↦
      rw nz (let k : suc (length s) - 1 ≡ length s - 0 = omega arith in rw k (ap (λ u. c ∷ u) e))
]
pad_end-add_unless_zero c s (d ∷ t) h e =
    let k : suc (length s) - suc (suc (length t)) ≡ length s - suc (length t) = omega arith in
    rw k (ap (λ u. c ∷ u) e)

-- What was dropped at the end are zeros, which `padEnd` to the old length puts back.
pub pad_end-trim_end_zeros : (s : Text) → pad_end (length s) (trim_end_zeros s) ≡ s
unfolding pad_end trim_end_zeros
pad_end-trim_end_zeros [] = refl
pad_end-trim_end_zeros (c ∷ s) =
    pad_end-add_unless_zero c s (trim_end_zeros s) (length-trim_end_zeros s)
      (pad_end-trim_end_zeros s)

replicate-add : (m d : ℕ) (a : ℕ) → replicate (m + d) a ≡ replicate m a ++ replicate d a
replicate-add zero d a = rw zero-add refl
replicate-add (suc m) d a =
    let k : suc m + d ≡ suc (m + d) = omega arith in rw k (ap (λ u. a ∷ u) (replicate-add m d a))

pad_end-add :
    (k d : ℕ) (t : Text) → length t ≤ k → pad_end (k + d) t ≡ pad_end k t ++ replicate d b'0'
unfolding pad_end
pad_end-add k d t h =
    let e : k + d - length t ≡ k - length t + d = omega arith in
    rw (e, replicate-add (k - length t) d b'0')
      (sym (append_assoc t (replicate (k - length t) b'0') (replicate d b'0')))

-- A fraction padded beyond its old length is read as its value times a power of ten.
pub value-pad_end-trim_end_zeros :
    (d : ℕ) (s : Text) → value (pad_end (length s + d) (trim_end_zeros s)) ≡ value s * 10 ^ d
unfolding value
value-pad_end-trim_end_zeros d s =
    rw
      (
        pad_end-add (length s) d (trim_end_zeros s) (length-trim_end_zeros s),
        pad_end-trim_end_zeros s,
        value_from-append 0 s (replicate d b'0'),
      )
      (value_from-zeros (value_from 0 s) d)

-- A fraction of at most k digits is a whole number of 10^-k.
pub value-pad_end :
    (k d : ℕ) (f : Text) → length f ≤ k → value (pad_end (k + d) f) ≡ value (pad_end k f) * 10 ^ d
unfolding value
value-pad_end k d f h =
    rw (pad_end-add k d f h, value_from-append 0 (pad_end k f) (replicate d b'0'))
      (value_from-zeros (value_from 0 (pad_end k f)) d)
