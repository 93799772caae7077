-- ===== src/Utils.antt =====
-- utils.cpp: the value helpers that every module's `setParam` uses.
--
-- `Libc` stands for the conversions of the C library: `atoi` and `atol`, and `percent s` for
-- `(int)(atof(s) * 100.0 + 0.5)`, the one floating-point expression of the modules' parameters.
pub mod Apply
use text.Mathlib.Text.{◌==◌ as str_eq}
use Prim.Native.String.{String}
use Prim.Native.Char.{code}
use clumsy.Prelude.{
  ℕ, ◌+◌, ◌-◌, ◌≤◌, ◌%◌, ◌≡◌, Bool, true, false, ◌&&◌, ◌||◌, List, [], ◌∷◌, map, arith, ltb, leb,
  ◌==◌, if◌then◌else◌, min, max,
}
use clumsy.Prelude.Int.{ℤ, pos, negsuc, pos_part, ltb_ℤ}

pub record Libc : Type 0 where
  pub atoi : String → ℤ
  pub atol : String → ℤ
  pub percent : String → ℤ

-- `I2S`, and the conversion to `short` on return: the low 16 bits, read as a signed number.
unfoldable pub i2s : ℤ → ℤ
i2s (pos n) = if ltb (n % 65536) 32768 then pos (n % 65536) else negsuc (65535 - n % 65536)
i2s (negsuc n) = if ltb (n % 65536) 32768 then negsuc (n % 65536) else pos (65535 - n % 65536)

i2s_small : (n : ℕ) → n ≤ 32767 → i2s (pos n) ≡ pos n
unfolding i2s
i2s_small n h = ground arith

unfoldable pub clamp_short : ℤ → ℤ → ℤ → ℤ
clamp_short v lo hi =
    let v1 = (if ltb_ℤ v lo then lo else v) in let v2 = (if ltb_ℤ hi v1 then hi else v1) in i2s v2

unfoldable pub clamp_long : ℤ → ℤ → ℤ → ℤ
clamp_long v lo hi = let v1 = (if ltb_ℤ v lo then lo else v) in if ltb_ℤ hi v1 then hi else v1

abbrev pub lower : ℕ → ℕ
lower c = if leb b'A' c && leb c b'Z' then c + 32 else c

abbrev pub codes : String → List ℕ
codes String.[] = []
codes (String.◌∷◌ c s) = code c ∷ codes s

abbrev pub same_codes : List ℕ → List ℕ → Bool
same_codes [] [] = true
same_codes (a ∷ s) (b ∷ t) = a == b && same_codes s t
same_codes _ _ = false

-- `_stricmp(a, b) == 0`.
unfoldable pub stricmp : String → String → Bool
stricmp a b = same_codes (map lower (codes a)) (map lower (codes b))

unfoldable pub parse_bool_value : String → Bool
unfolding stricmp
parse_bool_value value =
    str_eq value "true" || str_eq value "1" || stricmp value "on" || stricmp value "yes"

-- The values that a module stores: the range is that of the call, so no sign is lost.
unfoldable pub short_in : ℕ → ℕ → ℤ → ℕ
unfolding clamp_short
short_in lo hi v = pos_part (clamp_short v (pos lo) (pos hi))

unfoldable pub long_in : ℕ → ℕ → ℤ → ℕ
unfolding clamp_long
long_in lo hi v = pos_part (clamp_long v (pos lo) (pos hi))

-- Between bounds that a short can hold, `clampShort` stays in range and keeps what is in range.
pub clamp_short_range :
    (v : ℤ) (lo hi : ℕ)
    → lo ≤ hi
    → hi ≤ 32767
    → (clamp_short v (pos lo) (pos hi) ≡ pos (short_in lo hi v))
      × (lo ≤ short_in lo hi v)
      × (short_in lo hi v ≤ hi)
      × ((n : ℕ) → v ≡ pos n → lo ≤ n → n ≤ hi → short_in lo hi v ≡ n)
unfolding short_in
clamp_short_range (pos n) lo hi h k = ground (arith, i2s_small n, i2s_small lo, i2s_small hi)
clamp_short_range (negsuc n) lo hi h k = ground (arith, i2s_small lo)

-- Between bounds, `clampLong` returns the nearest value in range.
pub clamp_long_range :
    (v : ℤ) (lo hi : ℕ)
    → lo ≤ hi
    → (clamp_long v (pos lo) (pos hi) ≡ pos (long_in lo hi v))
      × (lo ≤ long_in lo hi v)
      × (long_in lo hi v ≤ hi)
      × ((n : ℕ) → v ≡ pos n → lo ≤ n → n ≤ hi → long_in lo hi v ≡ n)
unfolding long_in
clamp_long_range (pos n) lo hi h = ground arith
clamp_long_range (negsuc n) lo hi h = ground arith

-- The value of a range next to a number.
abbrev pub nearest : ℕ → ℕ → ℤ → ℕ
nearest lo hi (pos n) = min hi (max lo n)
nearest lo hi (negsuc n) = lo

-- Between bounds that a short can hold, `clampShort` returns the value of the range that is nearest to its
-- argument, whatever that is: it neither wraps around nor changes the sign.
pub clamp_short-nearest :
    (v : ℤ) (lo hi : ℕ)
    → lo ≤ hi
    → hi ≤ 32767
    → clamp_short v (pos lo) (pos hi) ≡ pos (nearest lo hi v)
unfolding clamp_short
clamp_short-nearest (pos n) lo hi h k = ground (arith, i2s_small lo, i2s_small hi, i2s_small n)
clamp_short-nearest (negsuc n) lo hi h k = ground (arith, i2s_small lo)
