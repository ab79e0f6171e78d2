-- ===== src/Buffer/Words.antt =====
-- otl_baseclass.cpp: machine words as bytes. The host stores the low byte first; `htons` and
-- `htonl` of the C library reverse the bytes there, and the file builds `bm_htonll` from them.
use otl.Common.{
  ℕ, zero, suc, ◌+◌, ◌-◌, ◌*◌, ◌/◌, ◌%◌, ◌^◌, ◌<◌, ◌≡◌, refl, ap, ◌∙◌, List, [], ◌∷◌, arith, ltb,
  if◌then◌else◌, length, IsBytes,
}
use native.Mathlib.Nat.{mod-eq_of_lt}
use otl.Common.Int.{ℤ, pos, negsuc, ◌≤ℤ◌}

-- The bytes of a word of `w` bytes as the host stores it, and the word that such bytes are.
abbrev pub le_bytes : ℕ → ℕ → List ℕ
le_bytes zero v = []
le_bytes (suc w) v = v % 256 ∷ le_bytes w (v / 256)

abbrev pub le_value : List ℕ → ℕ
le_value [] = 0
le_value (x ∷ xs) = x + 256 * le_value xs

-- `htons` and `ntohs`, on 16 bits.
unfoldable pub htons : ℕ → ℕ
htons v = v % 256 * 256 + v / 256 % 256

-- `htonl` and `ntohl`, on 32 bits.
unfoldable pub htonl : ℕ → ℕ
htonl v = v % 256 * 16777216 + v / 256 % 256 * 65536 + v / 65536 % 256 * 256 + v / 16777216 % 256

-- `bm_htonll` and `bm_ntohll`, with `htonl`'s argument cut to 32 bits.
unfoldable pub bm_htonll : ℕ → ℕ
bm_htonll val = (htonl (val % 2 ^ 32) * 2 ^ 32 % 2 ^ 64 + htonl (val / 2 ^ 32)) % 2 ^ 64

unfoldable pub bm_ntohll : ℕ → ℕ
bm_ntohll val = (htonl (val % 2 ^ 32) * 2 ^ 32 % 2 ^ 64 + htonl (val / 2 ^ 32)) % 2 ^ 64

-- The bit pattern of a signed integer of `bits` bits, and the integer of a pattern.
abbrev pub to_word : ℕ → ℤ → ℕ
to_word modulus (pos n) = n % modulus
to_word modulus (negsuc n) = modulus - 1 - n % modulus

abbrev pub of_word : ℕ → ℕ → ℤ
of_word modulus w = if ltb w (modulus / 2) then pos w else negsuc (modulus - 1 - w)

pub length-le_bytes : (w v : ℕ) → length (le_bytes w v) ≡ w
length-le_bytes zero v = refl
length-le_bytes (suc w) v = ap suc (length-le_bytes w (v / 256))

pub le_bytes-IsBytes : (w v : ℕ) → IsBytes (le_bytes w v)
le_bytes-IsBytes zero v = tt
le_bytes-IsBytes (suc w) v = (omega arith, le_bytes-IsBytes w (v / 256))

pub le_value-bytes_1 : (v : ℕ) → v < 2 ^ 8 → le_value (le_bytes 1 v) ≡ v
le_value-bytes_1 v h = omega arith

pub le_value-bytes_2 : (v : ℕ) → v < 2 ^ 16 → le_value (le_bytes 2 v) ≡ v
le_value-bytes_2 v h = omega arith

pub le_value-bytes_4 : (v : ℕ) → v < 2 ^ 32 → le_value (le_bytes 4 v) ≡ v
le_value-bytes_4 v h = omega arith

pub le_value-bytes_8 : (v : ℕ) → v < 2 ^ 64 → le_value (le_bytes 8 v) ≡ v
le_value-bytes_8 v h = omega arith

pub htons-htons : (v : ℕ) → v < 2 ^ 16 → htons (htons v) ≡ v
unfolding htons
htons-htons v h = omega arith

pub htonl-lt : (v : ℕ) → htonl v < 2 ^ 32
unfolding htonl
htonl-lt v = omega arith

htonl_digits :
    (a b c d : ℕ)
    → a < 256
    → b < 256
    → c < 256
    → d < 256
    → htonl (a + 256 * b + 65536 * c + 16777216 * d) ≡ d + 256 * c + 65536 * b + 16777216 * a
unfolding htonl
htonl_digits a b c d ha hb hc hd = omega arith

digits_of :
    (v : ℕ)
    → v < 2 ^ 32
    → v ≡ v % 256 + 256 * (v / 256 % 256) + 65536 * (v / 65536 % 256) + 16777216 * (v / 16777216)
digits_of v h = omega arith

pub htonl-htonl : (v : ℕ) → v < 2 ^ 32 → htonl (htonl v) ≡ v
htonl-htonl v h =
    ap (λ k. htonl (htonl k)) (digits_of v h)
    ∙ ap htonl (htonl_digits a b c d (omega arith) (omega arith) (omega arith) (omega arith))
    ∙ htonl_digits d c b a (omega arith) (omega arith) (omega arith) (omega arith)
    ∙ (omega arith)
  where
    a : ℕ
    a = v % 256

    b : ℕ
    b = v / 256 % 256

    c : ℕ
    c = v / 65536 % 256

    d : ℕ
    d = v / 16777216

bm_htonll-parts : (v : ℕ) → bm_htonll v ≡ htonl (v % 2 ^ 32) * 2 ^ 32 + htonl (v / 2 ^ 32)
unfolding bm_htonll
bm_htonll-parts v = omega (arith, htonl-lt (v % 2 ^ 32), htonl-lt (v / 2 ^ 32))

bm_ntohll-parts :
    (x y : ℕ) → x < 2 ^ 32 → y < 2 ^ 32 → bm_ntohll (x * 2 ^ 32 + y) ≡ htonl y * 2 ^ 32 + htonl x
unfolding bm_ntohll
bm_ntohll-parts x y hx hy = rw (low, high) (omega (arith, htonl-lt x, htonl-lt y))
  where
    low : (x * 2 ^ 32 + y) % 2 ^ 32 ≡ y
    low = omega arith

    high : (x * 2 ^ 32 + y) / 2 ^ 32 ≡ x
    high = omega arith

pub bm_ntohll-bm_htonll : (v : ℕ) → v < 2 ^ 64 → bm_ntohll (bm_htonll v) ≡ v
bm_ntohll-bm_htonll v h =
    rw
      (
        bm_htonll-parts v,
        bm_ntohll-parts (htonl (v % 2 ^ 32)) (htonl (v / 2 ^ 32)) (htonl-lt _) (htonl-lt _),
        htonl-htonl (v / 2 ^ 32) (omega arith),
        htonl-htonl (v % 2 ^ 32) (omega arith),
      )
      (omega arith)

pub bm_htonll-lt : (v : ℕ) → bm_htonll v < 2 ^ 64
unfolding bm_htonll
bm_htonll-lt v = omega arith

pub htons-lt : (v : ℕ) → htons v < 2 ^ 16
unfolding htons
htons-lt v = omega arith

halves : (half : ℕ) → 2 * half / 2 ≡ half
halves half = omega arith

-- A signed integer in range is the one that its bit pattern stands for.
pub of_word-to_word :
    (half : ℕ) (z : ℤ)
    → 0 < half
    → negsuc (half - 1) ≤ℤ z
    → z ≤ℤ pos (half - 1)
    → of_word (2 * half) (to_word (2 * half) z) ≡ z
of_word-to_word half (pos n) p lo hi =
    rw (mod-eq_of_lt {n = n} {m = 2 * half} (omega arith), halves half) (ground arith)
of_word-to_word half (negsuc n) p lo hi =
    rw (mod-eq_of_lt {n = n} {m = 2 * half} (omega arith), halves half) (ground arith)

pub to_word-lt : (modulus : ℕ) (z : ℤ) → 0 < modulus → to_word modulus z < modulus
to_word-lt modulus (pos n) p = omega arith
to_word-lt modulus (negsuc n) p = omega arith
