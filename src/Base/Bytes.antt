-- ===== src/Base/Bytes.antt =====
-- Bytes as numbers below 256: `struct` fields, `int.from_bytes`, and slices.
use peer_cache.Base.{
  ℕ, zero, suc, ◌+◌, ◌-◌, min, ◌*◌, ◌/◌, ◌%◌, ◌<◌, ◌≡◌, refl, ap, ◌∙◌, arith, List, [], ◌∷◌, ◌++◌,
  length, take, drop, All, length-append,
}

-- A little-endian field of `w` bytes.
unfoldable pub pack_le : ℕ → ℕ → List ℕ
pack_le zero n = []
pack_le (suc w) n = n % 256 ∷ pack_le w (n / 256)

-- `int.from_bytes(bs, "little")`
unfoldable pub unpack_le : List ℕ → ℕ
unpack_le [] = 0
unpack_le (b ∷ bs) = b + 256 * unpack_le bs

-- A big-endian field of `w` bytes.
unfoldable pub pack_be : ℕ → ℕ → List ℕ
pack_be zero n = []
pack_be (suc w) n = pack_be w (n / 256) ++ n % 256 ∷ []

unfoldable pub unpack_be : ℕ → List ℕ → ℕ
unpack_be acc [] = acc
unpack_be acc (b ∷ bs) = unpack_be (acc * 256 + b) bs

-- How many values a field of `w` bytes has.
unfoldable pub values : ℕ → ℕ
values zero = 1
values (suc w) = 256 * values w

-- `b"\x00" * n`
unfoldable pub zeros : ℕ → List ℕ
zeros zero = []
zeros (suc n) = 0 ∷ zeros n

pub length-pack_le : (w n : ℕ) → length (pack_le w n) ≡ w
unfolding pack_le
length-pack_le zero n = refl
length-pack_le (suc w) n = ap suc (length-pack_le w (n / 256))

pub unpack-pack_le : (w n : ℕ) → n < values w → unpack_le (pack_le w n) ≡ n
unfolding pack_le unpack_le values
unpack-pack_le zero n h = omega arith
unpack-pack_le (suc w) n h = omega (arith, unpack-pack_le w (n / 256) (omega arith))

pub unpack_le-bound : (bs : List ℕ) → All (λ b. b < 256) bs → unpack_le bs < values (length bs)
unfolding unpack_le values
unpack_le-bound [] h = omega arith
unpack_le-bound (b ∷ bs) h = omega (arith, h.0, unpack_le-bound bs h.1)

pub length-pack_be : (w n : ℕ) → length (pack_be w n) ≡ w
unfolding pack_be
length-pack_be zero n = refl
length-pack_be (suc w) n =
    length-append (pack_be w (n / 256)) (n % 256 ∷ []) ∙ omega (arith, length-pack_be w (n / 256))

unpack_be-append :
    (acc : ℕ) (bs : List ℕ) (b : ℕ) → unpack_be acc (bs ++ b ∷ []) ≡ unpack_be acc bs * 256 + b
unfolding unpack_be
unpack_be-append acc [] b = refl
unpack_be-append acc (c ∷ bs) b = unpack_be-append (acc * 256 + c) bs b

pub unpack-pack_be : (w n : ℕ) → n < values w → unpack_be 0 (pack_be w n) ≡ n
unfolding pack_be unpack_be values
unpack-pack_be zero n h = omega arith
unpack-pack_be (suc w) n h =
    unpack_be-append 0 (pack_be w (n / 256)) (n % 256)
    ∙ omega (arith, unpack-pack_be w (n / 256) (omega arith))

pub take-append {ℓ} : {A : Type ℓ} (w : ℕ) (xs ys : List A) → length xs ≡ w → take w (xs ++ ys) ≡ xs
take-append zero [] ys h = refl
take-append (suc w) [] ys h = absurd (omega arith)
take-append zero (x ∷ xs) ys h = absurd (omega arith)
take-append (suc w) (x ∷ xs) ys h = ap (λ t. x ∷ t) (take-append w xs ys (omega arith))

pub drop-append {ℓ} : {A : Type ℓ} (w : ℕ) (xs ys : List A) → length xs ≡ w → drop w (xs ++ ys) ≡ ys
drop-append zero [] ys h = refl
drop-append (suc w) [] ys h = absurd (omega arith)
drop-append zero (x ∷ xs) ys h = absurd (omega arith)
drop-append (suc w) (x ∷ xs) ys h = drop-append w xs ys (omega arith)

pub length-zeros : (n : ℕ) → length (zeros n) ≡ n
unfolding zeros
length-zeros zero = refl
length-zeros (suc n) = ap suc (length-zeros n)

module _ {ℓ} {A : Type ℓ} where
  pub length-take : (n : ℕ) (xs : List A) → length (take n xs) ≡ min n (length xs)
  length-take zero xs = ground arith
  length-take (suc n) [] = ground arith
  length-take (suc n) (x ∷ xs) = ground (arith, length-take n xs)

  pub length-drop : (n : ℕ) (xs : List A) → length (drop n xs) ≡ length xs - n
  length-drop zero xs = ground arith
  length-drop (suc n) [] = ground arith
  length-drop (suc n) (x ∷ xs) = ground (arith, length-drop n xs)

  pub All-take {κ} : (P : A → Type κ) (n : ℕ) (xs : List A) → All P xs → All P (take n xs)
  All-take P zero xs h = tt
  All-take P (suc n) [] h = tt
  All-take P (suc n) (x ∷ xs) h = (h.0, All-take P n xs h.1)

  pub All-drop {κ} : (P : A → Type κ) (n : ℕ) (xs : List A) → All P xs → All P (drop n xs)
  All-drop P zero xs h = h
  All-drop P (suc n) [] h = tt
  All-drop P (suc n) (x ∷ xs) h = All-drop P n xs h.1
