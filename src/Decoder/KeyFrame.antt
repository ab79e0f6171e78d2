-- ===== src/Decoder/KeyFrame.antt =====
-- stream_decode.cpp: `isKeyFrame` finds the NAL unit behind the next start code.
use otl.Common.{
  ℕ, zero, suc, ◌+◌, ◌-◌, ◌%◌, ◌≤◌, ◌<◌, ◌≡◌, refl, sym, ap, ap₂, ◌∙◌, arith, Bool, true, false,
  ◌&&◌, ◌||◌, List, [], ◌∷◌, ◌++◌, Option, none, some, ◌==◌, if◌then◌else◌, length, drop, get_elem?,
  get_or, length-drop, drop-append_of_le, le→leb,
}
use otl.Sei.{start_code}
use otl.Strings.{begins, find, shift}
use otl.Decoder.{
  h264, Packet, at_code, nal_type, scan, scan_test, memory, left_of, search_type, is_key_type,
  is_key_frame,
}

-- The type of the NAL unit behind the start code that was found, or else the one given.
abbrev pub type_behind : Option ℕ → List ℕ → ℕ → ℕ
type_behind none q nal = nal
type_behind (some k) q nal = get_or q (k + 4) 0 % 32

abbrev pub first_type : List ℕ → ℕ
first_type bytes = get_or bytes 4 0 % 32

abbrev pub next_type : List ℕ → ℕ
next_type bytes = type_behind (find start_code (drop 4 bytes)) (drop 4 bytes) (first_type bytes)

abbrev pub found_type : List ℕ → ℕ
found_type bytes = if first_type bytes == 7 then first_type bytes else next_type bytes

-- No end of the code stands at the start of the bytes.
abbrev Misses : List ℕ → List ℕ → Type 0
Misses [] z = Unit
Misses (k ∷ code) z = (at_code (k ∷ code) z ≡ some false) × Misses code z

if_some : (b c : Bool) → (if b then some c else some false) ≡ some (b && c)
if_some true c = refl
if_some false c = refl

if_both : (b : Bool) (m n : ℕ) → (if b then some m else some n) ≡ some (if b then m else n)
if_both true m n = refl
if_both false m n = refl

at_code_lem : (code q z : List ℕ) → Misses code z → at_code code (q ++ z) ≡ some (begins code q)
unfolding at_code begins
at_code_lem [] q z m = refl
at_code_lem (k ∷ code) [] z m = m.0
at_code_lem (k ∷ code) (b ∷ q) z m =
    ap (λ o. if k == b then o else some false) (at_code_lem code q z m.1)
    ∙ if_some (k == b) (begins code q)

abbrev zeros : List ℕ → List ℕ
zeros more = 0 ∷ 0 ∷ 0 ∷ 0 ∷ more

get_zeros : (i : ℕ) (more : List ℕ) → i < 4 → get_elem? (zeros more) i ≡ some 0
get_zeros zero more h = refl
get_zeros (suc zero) more h = refl
get_zeros (suc (suc zero)) more h = refl
get_zeros (suc (suc (suc zero))) more h = refl
get_zeros (suc (suc (suc (suc i)))) more h = absurd (omega arith)

get_memory :
    (q : List ℕ) (i : ℕ) (more : List ℕ)
    → i < length q + 4
    → get_elem? (q ++ zeros more) i ≡ some (get_or q i 0)
get_memory [] i more h = get_zeros i more (omega arith)
get_memory (x ∷ q) zero more h = refl
get_memory (x ∷ q) (suc i) more h = get_memory q i more (omega arith)

type_behind-shift :
    (o : Option ℕ) (b : ℕ) (q : List ℕ) (nal : ℕ)
    → type_behind (shift o) (b ∷ q) nal ≡ type_behind o q nal
type_behind-shift none b q nal = refl
type_behind-shift (some k) b q nal =
    ap (λ i. get_or (b ∷ q) i 0 % 32) (let e : suc k + 4 ≡ suc (k + 4) = omega arith in e)

scan_round :
    (t : Bool) (b : ℕ) (q : List ℕ) (o : Option ℕ) (nal : ℕ)
    → scan_test (some t) (some (get_or q 3 0 % 32)) (some (type_behind o q nal))
      ≡ some (type_behind (if t then some 0 else shift o) (b ∷ q) nal)
scan_round true b q o nal = refl
scan_round false b q o nal = ap some (sym (type_behind-shift o b q nal))

scan_lem :
    (q more : List ℕ) (nal : ℕ)
    → scan (length q) (q ++ zeros more) nal ≡ some (type_behind (find start_code q) q nal)
unfolding scan find at_code begins
scan_lem [] more nal = refl
scan_lem (b ∷ q) more nal =
    ap₂ (λ t rest. scan_test t (nal_type (get_elem? (q ++ zeros more) 3)) rest)
      (at_code_lem start_code (b ∷ q) (zeros more) (refl, (refl, (refl, (refl, tt)))))
      (scan_lem q more nal)
    ∙ ap
        (λ o.
          scan_test (some (begins start_code (b ∷ q))) (nal_type o)
            (some (type_behind (find start_code q) q nal)))
        (get_memory q 3 more (omega arith))
    ∙ scan_round (begins start_code (b ∷ q)) b q (find start_code q) nal

-- For a packet of at least four bytes with four zero bytes kept behind it, `isKeyFrame` reads nothing
-- behind those. For H.264 it tells whether a NAL unit is a sequence parameter set or an IDR slice:
-- the unit at byte 4, when that is a parameter set, and else the one behind the first start code
-- from byte 4 on, or the unit at byte 4 when there is no other.
pub is_key_frame_lem :
    (p : Packet) (more : List ℕ)
    → 4 ≤ length p.bytes
    → p.padding ≡ 0 ∷ 0 ∷ 0 ∷ 0 ∷ more
    → is_key_frame (some h264) p ≡ some (found_type p.bytes == 7 || found_type p.bytes == 5)
unfolding is_key_frame
is_key_frame_lem p more h z =
    ap (λ o. is_key_type (search_type p (nal_type o))) first
    ∙ ap is_key_type (search_lem (first_type p.bytes))
  where
    first : get_elem? (memory p) 4 ≡ some (get_or p.bytes 4 0)
    first = ap (λ w. get_elem? (p.bytes ++ w) 4) z ∙ get_memory p.bytes 4 more (omega arith)

    left : left_of p ≡ length (drop 4 p.bytes)
    left =
        ap (λ b. if b then length p.bytes - 4 else length (memory p)) (le→leb 4 (length p.bytes) h)
        ∙ sym (length-drop 4 p.bytes)

    rest : drop 4 (memory p) ≡ drop 4 p.bytes ++ zeros more
    rest = ap (λ w. drop 4 (p.bytes ++ w)) z ∙ drop-append_of_le 4 p.bytes (zeros more) h

    search_lem :
        (nal : ℕ)
        → search_type p (some nal)
          ≡ some (
              if nal == 7
              then nal
              else type_behind (find start_code (drop 4 p.bytes)) (drop 4 p.bytes) nal)
    search_lem nal =
        ap (λ o. if nal == 7 then some nal else o)
          (ap₂ (λ n w. scan n w nal) left rest ∙ scan_lem (drop 4 p.bytes) more nal)
        ∙ if_both (nal == 7) nal
            (type_behind (find start_code (drop 4 p.bytes)) (drop 4 p.bytes) nal)
