-- ===== src/Itch/Numbers.antt =====
-- The big-endian readers against the value of a number's bytes.
use Prim.Native.Nat.{bit_or}
use orderbook_engine.Base.{ℕ, zero, suc, ◌+◌, ◌*◌, ◌%◌, ◌^◌, ◌<◌, ◌≡◌, ◌∙◌, arith, ap}
use orderbook_engine.Base.Bits.{bit_or-add}
use orderbook_engine.Itch.{Bytes, be16, be32, be48, be64}

abbrev pub IsBytes : Bytes → Type 0
IsBytes d = (p : ℕ) → d p < 256

-- The number that `n` bytes from `p` on stand for, the first byte being the most significant.
abbrev pub number : (n : ℕ) → Bytes → ℕ → ℕ
number zero d p = 0
number (suc n) d p = number n d p * 256 + d (p + n)

-- One more byte from the right, `s` bits up.
or_two : (a b : ℕ) → b < 256 → bit_or (a * 2 ^ 8) b ≡ a * 256 + b
or_two a b lt = bit_or-add 8 a b (omega arith)

or_step :
    (t acc a x b s : ℕ)
    → acc ≡ a * 2 ^ t
    → x ≡ b * s
    → b * s < 2 ^ t
    → bit_or acc x ≡ a * 2 ^ t + b * s
or_step t acc a x b s e f lt = rw (e, f) (bit_or-add t a (b * s) lt)

be16-number : (d : Bytes) (p : ℕ) → IsBytes d → be16 d p ≡ number 2 d p
unfolding be16
be16-number d p h =
    let h0 = h p in
    let h1 = h (p + 1) in
    let z : d (p + 0) ≡ d p = ap d (omega arith) in
    omega (arith, or_two (d p) (d (p + 1)) h1, h0, h1, z)

be32-number : (d : Bytes) (p : ℕ) → IsBytes d → be32 d p ≡ number 4 d p
unfolding be32
be32-number d p h =
    let h0 = h p in
    let h1 = h (p + 1) in
    let h2 = h (p + 2) in
    let h3 = h (p + 3) in
    let z : d (p + 0) ≡ d p = ap d (omega arith) in
    let s1 =
      or_step 24 (d p * 2 ^ 24 % 2 ^ 32) (d p) (d (p + 1) * 2 ^ 16 % 2 ^ 32) (d (p + 1)) (2 ^ 16)
        (omega arith) (omega arith) (omega arith) in
    let s2 =
      or_step 16 _ (d p * 256 + d (p + 1)) (d (p + 2) * 2 ^ 8 % 2 ^ 32) (d (p + 2)) (2 ^ 8)
        (s1 ∙ omega arith) (omega arith) (omega arith) in
    let s3 =
      or_step 8 _ ((d p * 256 + d (p + 1)) * 256 + d (p + 2)) (d (p + 3)) (d (p + 3)) 1
        (s2 ∙ omega arith) (omega arith) (omega arith) in
    omega (arith, s3, z)

be48-number : (d : Bytes) (p : ℕ) → IsBytes d → be48 d p ≡ number 6 d p
unfolding be48
be48-number d p h =
    let h0 = h p in
    let h1 = h (p + 1) in
    let h2 = h (p + 2) in
    let h3 = h (p + 3) in
    let h4 = h (p + 4) in
    let h5 = h (p + 5) in
    let z : d (p + 0) ≡ d p = ap d (omega arith) in
    let n2 = d p * 256 + d (p + 1) in
    let n3 = n2 * 256 + d (p + 2) in
    let n4 = n3 * 256 + d (p + 3) in
    let n5 = n4 * 256 + d (p + 4) in
    let s1 =
      or_step 40 (d p * 2 ^ 40 % 2 ^ 64) (d p) (d (p + 1) * 2 ^ 32 % 2 ^ 64) (d (p + 1)) (2 ^ 32)
        (omega arith) (omega arith) (omega arith) in
    let s2 =
      or_step 32 _ n2 (d (p + 2) * 2 ^ 24 % 2 ^ 64) (d (p + 2)) (2 ^ 24) (s1 ∙ omega arith)
        (omega arith) (omega arith) in
    let s3 =
      or_step 24 _ n3 (d (p + 3) * 2 ^ 16 % 2 ^ 64) (d (p + 3)) (2 ^ 16) (s2 ∙ omega arith)
        (omega arith) (omega arith) in
    let s4 =
      or_step 16 _ n4 (d (p + 4) * 2 ^ 8 % 2 ^ 64) (d (p + 4)) (2 ^ 8) (s3 ∙ omega arith)
        (omega arith) (omega arith) in
    let s5 =
      or_step 8 _ n5 (d (p + 5)) (d (p + 5)) 1 (s4 ∙ omega arith) (omega arith) (omega arith) in
    omega (arith, s5, z)

number-lt : (d : Bytes) (p : ℕ) → IsBytes d → number 4 d p < 2 ^ 32
number-lt d p h = omega (arith, h (p + 0), h (p + 1), h (p + 2), h (p + 3))

be64-number : (d : Bytes) (p : ℕ) → IsBytes d → be64 d p ≡ number 8 d p
unfolding be64
be64-number d p h =
    let hi = be32-number d p h in
    let lo = be32-number d (p + 4) h in
    let l4 = number-lt d p h in
    let l4' = number-lt d (p + 4) h in
    let e0 : d (p + 4 + 0) ≡ d (p + 4) = ap d (omega arith) in
    let e1 : d (p + 4 + 1) ≡ d (p + 5) = ap d (omega arith) in
    let e2 : d (p + 4 + 2) ≡ d (p + 6) = ap d (omega arith) in
    let e3 : d (p + 4 + 3) ≡ d (p + 7) = ap d (omega arith) in
    let s =
      or_step 32 (be32 d p * 2 ^ 32 % 2 ^ 64) (be32 d p) (be32 d (p + 4)) (be32 d (p + 4)) 1
        (omega arith) (omega arith) (omega arith) in
    omega (arith, s, hi, lo, e0, e1, e2, e3)

-- Of a stream of bytes the readers read the number that two, four, six or eight bytes stand for, the
-- most significant byte first.
pub be-number :
    (d : Bytes) (p : ℕ)
    → IsBytes d
    → (be16 d p ≡ number 2 d p)
      × (be32 d p ≡ number 4 d p)
      × (be48 d p ≡ number 6 d p)
      × (be64 d p ≡ number 8 d p)
be-number d p h = (be16-number d p h, be32-number d p h, be48-number d p h, be64-number d p h)
