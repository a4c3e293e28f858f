-- ===== src/SlotMap/Gate.antt =====
-- What the header of a slot says, and which slots a reader accepts.
use mathlib.Core.Path.{ap₂}
use peer_cache.Base.{
  ℕ, ◌+◌, ◌%◌, ◌^◌, ◌<◌, ◌≡◌, ◌↔◌, refl, sym, ap, subst, ◌∙◌, inl, inr, arith, String, Option, none,
  some, true, false, not, List, ◌++◌, length, length-append, take, drop, ltb, ◌==◌, eq_ℕ, ==_iff,
  ◌&&◌, if◌then◌else◌, Bool-cases, All,
}
use peer_cache.Base.Bytes.{
  pack_le, unpack_le, values, zeros, length-pack_le, unpack-pack_le, take-append, drop-append,
  length-zeros, unpack_le-bound, length-take, length-drop, All-take, All-drop,
}
use peer_cache.SlotMap.{
  magic, version, header_size, Header, fits, header_body, checked, decode_fields, decode_header,
  key_hash128, encode_header, header_matches, slot_matches, header_present, slot_present,
}

read_field : (w n : ℕ) (rest : List ℕ) → n < values w → unpack_le (take w (pack_le w n ++ rest)) ≡ n
read_field w n rest h =
    ap unpack_le (take-append w (pack_le w n) rest (length-pack_le w n)) ∙ unpack-pack_le w n h

skip_field : (w n : ℕ) (rest : List ℕ) → drop w (pack_le w n ++ rest) ≡ rest
skip_field w n rest = drop-append w (pack_le w n) rest (length-pack_le w n)

ap₆ :
    (f : ℕ → ℕ → ℕ → ℕ → ℕ → ℕ → Header) {a a' b b' c c' d d' e e' g g' : ℕ}
    → a ≡ a'
    → b ≡ b'
    → c ≡ c'
    → d ≡ d'
    → e ≡ e'
    → g ≡ g'
    → f a b c d e g ≡ f a' b' c' d' e' g'
ap₆ f pa pb pc pd pe pg i = f (pa i) (pb i) (pc i) (pd i) (pe i) (pg i)

checked_own :
    (hi lo payload_len seq : ℕ)
    → checked magic version hi lo payload_len seq
      ≡ record { valid = true; key_hi = hi; key_lo = lo; payload_len = payload_len; seq = seq }
unfolding checked
checked_own hi lo payload_len seq = refl

decode-body :
    (hi lo payload_len seq : ℕ) (rest : List ℕ)
    → hi < values 8
    → lo < values 8
    → payload_len < values 4
    → seq < values 8
    → decode_fields (header_body hi lo payload_len seq rest)
      ≡ record { valid = true; key_hi = hi; key_lo = lo; payload_len = payload_len; seq = seq }
unfolding decode_fields header_body
decode-body hi lo payload_len seq rest h l p s =
    let b7 = pack_le 8 seq ++ rest in
    let b6 = pack_le 4 0 ++ b7 in
    let b5 = pack_le 4 payload_len ++ b6 in
    let b4 = pack_le 8 lo ++ b5 in
    let b3 = pack_le 8 hi ++ b4 in
    let b2 = pack_le 2 0 ++ b3 in
    let b1 = pack_le 2 version ++ b2 in
    let e1 = skip_field 4 magic b1 in
    let e2 = ap (drop 2) e1 ∙ skip_field 2 version b2 in
    let e3 = ap (drop 2) e2 ∙ skip_field 2 0 b3 in
    let e4 = ap (drop 8) e3 ∙ skip_field 8 hi b4 in
    let e5 = ap (drop 8) e4 ∙ skip_field 8 lo b5 in
    let e6 = ap (drop 4) e5 ∙ skip_field 4 payload_len b6 in
    let e7 = ap (drop 4) e6 ∙ skip_field 4 0 b7 in
    ap₆ checked (read_field 4 magic b1 (unfold values in omega arith))
      (ap (λ b. unpack_le (take 2 b)) e1 ∙ read_field 2 version b2 (unfold values in omega arith))
      (ap (λ b. unpack_le (take 8 b)) e3 ∙ read_field 8 hi b4 h)
      (ap (λ b. unpack_le (take 8 b)) e4 ∙ read_field 8 lo b5 l)
      (ap (λ b. unpack_le (take 4 b)) e5 ∙ read_field 4 payload_len b6 p)
      (ap (λ b. unpack_le (take 8 b)) e7 ∙ read_field 8 seq rest s)
    ∙ checked_own hi lo payload_len seq

length-body :
    (hi lo payload_len seq : ℕ) (rest : List ℕ)
    → length (header_body hi lo payload_len seq rest) ≡ 40 + length rest
unfolding header_body
length-body hi lo payload_len seq rest = simp (length-append, length-pack_le) (omega arith)

abbrev stamped : ℕ → ℕ → ℕ → ℕ → Header
stamped hi lo payload_len seq = record {
  valid = true;
  key_hi = hi;
  key_lo = lo;
  payload_len = payload_len;
  seq = seq;
}

whole_header :
    (hi lo payload_len seq : ℕ)
    → (fits 8 hi && fits 8 lo && fits 4 payload_len && fits 8 seq) ≡ true
    → (length (header_body hi lo payload_len seq (zeros 24)) ≡ 64)
      × (decode_header (header_body hi lo payload_len seq (zeros 24))
          ≡ some (stamped hi lo payload_len seq))
unfolding decode_header fits
whole_header hi lo payload_len seq h =
    let size = length-body hi lo payload_len seq (zeros 24) ∙ ap (λ n. 40 + n) (length-zeros 24) in
    let enough : ltb (length (header_body hi lo payload_len seq (zeros 24))) 40 ≡ false =
      rw size refl in
    (
      size,
      rw enough (
          ap some (
            decode-body hi lo payload_len seq (zeros 24) (ground arith) (ground arith)
              (ground arith) (ground arith))),
    )

module _ (digest16 : String → List ℕ) where
  -- Where `encode_header` does not raise, it gives 64 bytes, which `decode_header` reads back.
  pub decode-encode :
      (key : String) (payload_len seq : ℕ) (buf : List ℕ)
      → encode_header digest16 key payload_len seq ≡ some buf
      → (length buf ≡ header_size)
        × (decode_header buf
            ≡ some (record {
              valid = true;
              key_hi = (key_hash128 digest16 key).0;
              key_lo = (key_hash128 digest16 key).1;
              payload_len = payload_len;
              seq = seq;
            }))
  unfolding encode_header
  decode-encode key payload_len seq buf h =
      by_test (key_hash128 digest16 key).0 (key_hash128 digest16 key).1 h
    where
      by_test :
          (hi lo : ℕ)
          → (if fits 8 hi && fits 8 lo && fits 4 payload_len && fits 8 seq
              then some (header_body hi lo payload_len seq (zeros 24))
              else none)
            ≡ some buf
          → (length buf ≡ header_size) × (decode_header buf ≡ some (stamped hi lo payload_len seq))
      by_test hi lo e =
          elim (Bool-cases (fits 8 hi && fits 8 lo && fits 4 payload_len && fits 8 seq)) [
            | inr large ↦ absurd (ground arith)
            | inl small ↦
                subst
                  (λ b.
                    (length b ≡ header_size)
                    × (decode_header b ≡ some (stamped hi lo payload_len seq)))
                  (ground arith) (whole_header hi lo payload_len seq small)
          ]

  -- `encode_header` does not raise for a length below 2 ^ 32 and a seq below 2 ^ 64, given that
  -- the digest is 16 bytes.
  pub encode_header-total :
      (key : String) (payload_len seq : ℕ)
      → length (digest16 key) ≡ 16
      → All (λ b. b < 256) (digest16 key)
      → payload_len < 2 ^ 32
      → seq < 2 ^ 64
      → (buf : List ℕ) × (encode_header digest16 key payload_len seq ≡ some buf)
  unfolding encode_header key_hash128 fits
  encode_header-total key payload_len seq size bytes small_len small_seq =
      let d = digest16 key in
      let hi = unpack_le-bound (take 8 d) (All-take (λ b. b < 256) 8 d bytes) in
      let lo = unpack_le-bound (drop 8 d) (All-drop (λ b. b < 256) 8 d bytes) in
      let hi_size : length (take 8 d) ≡ 8 = length-take 8 d ∙ omega (arith, size) in
      let lo_size : length (drop 8 d) ≡ 8 = length-drop 8 d ∙ omega (arith, size) in
      let hi_fits = subst (λ w. unpack_le (take 8 d) < values w) hi_size hi in
      let lo_fits = subst (λ w. unpack_le (drop 8 d) < values w) lo_size lo in
      let four : values 4 ≡ 2 ^ 32 = unfold values in refl in
      let eight : values 8 ≡ 2 ^ 64 = unfold values in refl in
      let len_fits : payload_len < values 4 = omega (arith, four) in
      let seq_fits : seq < values 8 = omega (arith, eight) in
      let all : (fits 8 (unpack_le (take 8 d))
            && fits 8 (unpack_le (drop 8 d))
            && fits 4 payload_len
            && fits 8 seq)
          ≡ true =
        ground (arith, hi_fits, lo_fits, len_fits, seq_fits) in
      (
        header_body (unpack_le (take 8 d)) (unpack_le (drop 8 d)) payload_len seq (zeros 24),
        rw all refl,
      )

  -- A reader accepts a header for a key and a length exactly when it is present for the key
  -- with that length.
  matches_iff_present :
      (buf : List ℕ) (key : String) (n : ℕ)
      → (slot_matches digest16 buf key n ≡ true) ↔ (slot_present digest16 buf key ≡ some n)
  unfolding slot_matches slot_present header_matches header_present
  matches_iff_present buf key n = on (decode_header buf)
    where
      on :
          (o : Option Header)
          → (header_matches digest16 key n o ≡ true) ↔ (header_present digest16 key o ≡ some n)
      on none = ((λ e. absurd (cc)), λ e. absurd (cc))
      on (some h) = (
        (λ e. ground (arith, ==_iff h.payload_len n)),
        λ e. ground (arith, ==_iff h.payload_len n),
      )

  -- The bytes are a header of this key's hash and length, at rest: its seq is even.
  pub record IsStamped (key : String) (n : ℕ) (buf : List ℕ) : Type 0 where
    pub header : Header
    pub decoded : decode_header buf ≡ some header
    pub valid : header.valid ≡ true
    pub even : header.seq % 2 ≡ 0
    pub sized : header.payload_len ≡ n
    pub keyed : (header.key_hi, header.key_lo) ≡ key_hash128 digest16 key

  pub slot_matches-IsStamped :
      (key : String) (n : ℕ) (buf : List ℕ)
      → slot_matches digest16 buf key n ≡ true
      → IsStamped key n buf
  unfolding slot_matches header_matches
  slot_matches-IsStamped key n buf = on (decode_header buf) refl
    where
      on :
          (o : Option Header)
          → decode_header buf ≡ o
          → header_matches digest16 key n o ≡ true
          → IsStamped key n buf
      on none e h = absurd (cc)
      on (some h) e ok = record {
        header = h;
        decoded = e;
        valid = ground arith;
        even = ground arith;
        sized = ground (arith, ==_iff h.payload_len n);
        keyed =
            ap₂ (λ x y. (x, y)) (ground (arith, ==_iff h.key_hi (key_hash128 digest16 key).0))
              (ground (arith, ==_iff h.key_lo (key_hash128 digest16 key).1));
      }

  pub IsStamped-slot_matches :
      (key : String) (n : ℕ) (buf : List ℕ)
      → IsStamped key n buf
      → slot_matches digest16 buf key n ≡ true
  unfolding slot_matches header_matches
  IsStamped-slot_matches key n buf st =
      let h = st.header in
      let hi = ap (λ t. t.0) st.keyed in
      let lo = ap (λ t. t.1) st.keyed in
      ap (header_matches digest16 key n) st.decoded
      ∙ ground (
        arith,
        st.valid,
        st.even,
        st.sized,
        hi,
        lo,
        ==_iff h.payload_len n,
        ==_iff h.key_hi (key_hash128 digest16 key).0,
        ==_iff h.key_lo (key_hash128 digest16 key).1,
      )

  -- A header that `encode_header` returned is accepted for a key and a length exactly when it was
  -- made for that length, with an even seq, and for a key of the same 128-bit hash.
  pub matches-encode :
      (j key : String) (payload_len seq n : ℕ) (buf : List ℕ)
      → encode_header digest16 j payload_len seq ≡ some buf
      → (slot_matches digest16 buf key n ≡ true)
        ↔ ((seq % 2 ≡ 0) × (payload_len ≡ n) × (key_hash128 digest16 j ≡ key_hash128 digest16 key))
  unfolding slot_matches header_matches
  matches-encode j key payload_len seq n buf h =
      let (size, read) = decode-encode j payload_len seq buf h in
      subst
        (λ o. (header_matches digest16 key n o ≡ true) ↔ (
          (seq % 2 ≡ 0) × (payload_len ≡ n) × (key_hash128 digest16 j ≡ key_hash128 digest16 key)))
        (sym read) (on (key_hash128 digest16 j) (key_hash128 digest16 key))
    where
      on :
          (a b : ℕ × ℕ)
          → ((if seq % 2 == 1
                then false
                else if not (payload_len == n)
                then false
                else a.0 == b.0 && a.1 == b.1)
              ≡ true)
            ↔ ((seq % 2 ≡ 0) × (payload_len ≡ n) × (a ≡ b))
      on a b = (
        (λ e. (
          ground arith,
          ground (arith, ==_iff payload_len n),
          ap₂ (λ x y. (x, y)) (ground (arith, ==_iff a.0 b.0)) (ground (arith, ==_iff a.1 b.1)),
        )),
        λ e.
            let hi = ap (λ t. t.0) e.2 in
            let lo = ap (λ t. t.1) e.2 in
            ground (arith, e.0, e.1, hi, lo, ==_iff payload_len n, ==_iff a.0 b.0, ==_iff a.1 b.1),
      )
