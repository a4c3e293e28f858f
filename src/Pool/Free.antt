-- ===== src/Pool/Free.antt =====
-- The free lists of the pool: how many free slots cover an address.
use peer_cache.Base.{
  ℕ, ◌+◌, some, List, [], ◌∷◌, ◌++◌, ◌≡◌, refl, arith, leb, ltb, ◌&&◌, eq_ℕ, if◌then◌else◌,
  Option-cases, inl, inr,
}
use peer_cache.Base.Dict
use peer_cache.Base.Dict.{Dict, total, total-put_or, get-put_self}
use peer_cache.Pool.{pop_last, take_free, give_free}

-- 1 where the address is one of the block's, 0 elsewhere.
unfoldable pub inside : ℕ → ℕ → ℕ → ℕ
inside a off len = if leb off a && ltb a (off + len) then 1 else 0

abbrev pub inside_any : ℕ → ℕ → List ℕ → ℕ
inside_any a len [] = 0
inside_any a len (off ∷ offs) = inside a off len + inside_any a len offs

abbrev pub cover_free : ℕ → Dict ℕ (List ℕ) → ℕ
cover_free a = total (λ len offs. inside_any a len offs)

inside_any-append_one :
    (a len off : ℕ) (offs : List ℕ)
    → inside_any a len (offs ++ off ∷ []) ≡ inside_any a len offs + inside a off len
inside_any-append_one a len off [] = omega arith
inside_any-append_one a len off (o ∷ offs) = omega (arith, inside_any-append_one a len off offs)

inside_any-pop_last :
    (a len : ℕ) (offs : List ℕ) (off : ℕ) (rest : List ℕ)
    → pop_last offs ≡ some (off, rest)
    → inside_any a len rest + inside a off len ≡ inside_any a len offs
unfolding pop_last
inside_any-pop_last a len [] off rest h = absurd (cc)
inside_any-pop_last a len (o ∷ []) off rest h = ground arith
inside_any-pop_last a len (o ∷ o' ∷ offs) off rest h = elim (Option-cases (pop_last (o' ∷ offs))) [
  | inl empty ↦ ground arith
  | inr ((last, init), popped) ↦
      ground (arith, inside_any-pop_last a len (o' ∷ offs) last init popped)
]

-- A slot that is given back covers its bytes.
pub cover-give_free :
    (a len off : ℕ) (free : Dict ℕ (List ℕ))
    → cover_free a (give_free len off free) ≡ cover_free a free + inside a off len
unfolding give_free
cover-give_free a len off free =
    let offs = Dict.get_or len free [] in
    omega (
      arith,
      total-put_or (λ l os. inside_any a l os) len (offs ++ off ∷ []) [] free refl,
      inside_any-append_one a len off offs,
    )

-- A slot that is taken no longer does.
pub cover-take_free :
    (a len off : ℕ) (free rest : Dict ℕ (List ℕ))
    → take_free len free ≡ some (off, rest)
    → cover_free a rest + inside a off len ≡ cover_free a free
unfolding take_free
cover-take_free a len off free rest h =
    let offs = Dict.get_or len free [] in
    elim (Option-cases (pop_last offs)) [
      | inl empty ↦ ground arith
      | inr ((last, kept), popped) ↦ ground (
        arith,
        total-put_or (λ l os. inside_any a l os) len kept [] free refl,
        inside_any-pop_last a len offs last kept popped,
      )
    ]

pop_last-append_one : (offs : List ℕ) (off : ℕ) → pop_last (offs ++ off ∷ []) ≡ some (off, offs)
unfolding pop_last
pop_last-append_one [] off = refl
pop_last-append_one (o ∷ offs) off = rw (pop_last-append_one offs off, pop_last)

-- The slot given back last is the one taken first, so the eviction loop never finds none.
pub take-give_free :
    (len off : ℕ) (free : Dict ℕ (List ℕ))
    → (rest : Dict ℕ (List ℕ)) × (take_free len (give_free len off free) ≡ some (off, rest))
unfolding take_free give_free Dict.get_or pop_last Dict.put
take-give_free len off free =
    let offs = Dict.get_or len free [] in
    (
      Dict.put len offs (give_free len off free),
      rw (get-put_self len (offs ++ off ∷ []) free, take_free, pop_last-append_one offs off),
    )
