-- ===== src/Base/Text.antt =====
-- `str` of a number, and joining texts (`f"{a}#{i}"`).
use Prim.Native.String.{◌++◌ as append}
use peer_cache.Base.{ℕ, zero, suc, ◌/◌, ◌%◌, String, ltb, if◌then◌else◌, List, [], ◌∷◌, ◌≡◌, refl}

unfoldable pub join : String → String → String
join s t = append s t

abbrev digits : List String
digits = "0" ∷ "1" ∷ "2" ∷ "3" ∷ "4" ∷ "5" ∷ "6" ∷ "7" ∷ "8" ∷ "9" ∷ []

digit_from : List String → ℕ → String
digit_from [] d = ""
digit_from (s ∷ rest) zero = s
digit_from (s ∷ rest) (suc d) = digit_from rest d

-- A number has at most as many digits as it counts, so `suc n` rounds are enough.
str_loop : ℕ → ℕ → String
unfolding digit_from
str_loop zero n = ""
str_loop (suc f) n =
    let more = join (str_loop f (n / 10)) (digit_from digits (n % 10)) in
    if ltb n 10 then digit_from digits n else more

unfoldable pub str : ℕ → String
unfolding str_loop join
str n = str_loop (suc n) n

str_160 : str 160 ≡ "160"
unfolding str
str_160 = refl
