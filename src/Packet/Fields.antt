-- ===== src/Packet/Fields.antt =====
-- encoding/binary and `copy` as the packets' code uses them: big-endian words in a slice.
use mathlib.Core.List.{append_assoc, append-nil}
use teapod_tun2socks.Prelude.{
  ℕ, zero, suc, ◌+◌, ◌-◌, ◌/◌, ◌≤◌, ◌<◌, ◌≡◌, refl, List, [], ◌∷◌, ◌++◌, length, get_or, take, drop,
  set, leb, if◌then◌else◌, Go, ret, panic, ◌>>=◌, index, slice, index_lem, be16, to_u8, slice_from,
  length-take, length-drop, ◌∙◌, ◌&&◌, arith, ◌&&◌, ltb, length-append, ap, take_of_length-le, true,
}

-- The byte at an offset, for statements; 0 behind the end.
abbrev pub byte : List ℕ → ℕ → ℕ
byte pkt i = get_or pkt i 0

-- `binary.BigEndian.Uint16(b)`
unfoldable pub uint16 : List ℕ → Go ℕ
unfolding index
uint16 b = do lo ← index b 1; hi ← index b 0; ret (be16 hi lo)

-- `binary.BigEndian.PutUint16(b[lo:lo+2], v)`, as an update of the whole of `b`
unfoldable pub put_uint16 : List ℕ → ℕ → ℕ → Go (List ℕ)
put_uint16 b lo v =
    if leb (lo + 2) (length b)
    then ret (set (set b lo (to_u8 (v / 256))) (lo + 1) (to_u8 v))
    else panic

-- `b[i] = v`
unfoldable pub store : List ℕ → ℕ → ℕ → Go (List ℕ)
store b i v = if ltb i (length b) then ret (set b i v) else panic

-- `copy(b[lo:hi], src)`, as an update of the whole of `b`: as many bytes as both sides have
unfoldable pub copy_into : List ℕ → ℕ → ℕ → List ℕ → Go (List ℕ)
copy_into b lo hi src =
    if leb lo hi && leb hi (length b)
    then ret (take lo b ++ (take (hi - lo) src ++ drop (lo + length (take (hi - lo) src)) b))
    else panic

get_or-drop : (b : List ℕ) (lo i : ℕ) → byte (drop lo b) i ≡ byte b (lo + i)
get_or-drop b zero i = let e : 0 + i ≡ i = omega arith in rw e
get_or-drop [] (suc lo) i = refl
get_or-drop (x ∷ b) (suc lo) i =
    let e : suc lo + i ≡ suc (lo + i) = omega arith in rw e (get_or-drop b lo i)

get_or-take : (b : List ℕ) (n i : ℕ) → i < n → byte (take n b) i ≡ byte b i
get_or-take b zero i h = elim h [ ]
get_or-take [] (suc n) i h = refl
get_or-take (x ∷ b) (suc n) zero h = refl
get_or-take (x ∷ b) (suc n) (suc i) h = get_or-take b n i (omega arith)

-- Within bounds a slice is the part of the packet that it names.
pub slice_lem :
    (b : List ℕ) (lo hi : ℕ)
    → lo ≤ hi
    → hi ≤ length b
    → slice b lo hi ≡ ret (take (hi - lo) (drop lo b))
unfolding slice
slice_lem b lo hi h k = ground arith

pub slice_from_lem : (b : List ℕ) (lo : ℕ) → lo ≤ length b → slice_from b lo ≡ ret (drop lo b)
unfolding slice_from
slice_from_lem b lo h = ground arith

uint16_lem : (b : List ℕ) → 2 ≤ length b → uint16 b ≡ ret (be16 (byte b 0) (byte b 1))
unfolding uint16
uint16_lem b h = rw (index_lem b 1 0 h, index_lem b 0 0 (omega arith)) refl

-- The byte of a slice.
pub byte-slice : (b : List ℕ) (lo n i : ℕ) → i < n → byte (take n (drop lo b)) i ≡ byte b (lo + i)
byte-slice b lo n i h = get_or-take (drop lo b) n i h ∙ get_or-drop b lo i

-- A word of a packet that is long enough.
pub uint16-slice :
    (b : List ℕ) (lo hi : ℕ)
    → hi ≡ lo + 2
    → hi ≤ length b
    → (slice b lo hi >>= uint16) ≡ ret (be16 (byte b lo) (byte b (lo + 1)))
uint16-slice b lo hi e h =
    let two : hi - lo ≡ 2 = omega arith in
    let s = take 2 (drop lo b) in
    let long : 2 ≤ length s = omega (arith, length-take {0} 2 (drop lo b), length-drop {0} lo b) in
    let zeroth : lo + 0 ≡ lo = omega arith in
    rw
      (
        slice_lem b lo hi (omega arith) h,
        two,
        uint16_lem s long,
        byte-slice b lo 2 0 (omega arith),
        byte-slice b lo 2 1 (omega arith),
        zeroth,
      )
      refl

-- In range, the writes are the updates that they name.
pub store_lem : (b : List ℕ) (i v : ℕ) → i < length b → store b i v ≡ ret (set b i v)
unfolding store
store_lem b i v h = ground arith

pub put_uint16_lem :
    (b : List ℕ) (lo v : ℕ)
    → lo + 2 ≤ length b
    → put_uint16 b lo v ≡ ret (set (set b lo (to_u8 (v / 256))) (lo + 1) (to_u8 v))
unfolding put_uint16
put_uint16_lem b lo v h = ground arith

pub take-append : (a b : List ℕ) → take (length a) (a ++ b) ≡ a
take-append [] b = refl
take-append (x ∷ a) b = ap (◌∷◌ x) (take-append a b)

pub drop-append : (a b : List ℕ) (n : ℕ) → n ≡ length a → drop n (a ++ b) ≡ b
drop-append [] b n h = rw h
drop-append (x ∷ a) b n h = rw h (drop-append a b (length a) refl)

-- `copy` into a buffer `a ++ (z ++ c)` over the part `z`, which is as long as the source.
pub copy_into-append_le :
    (a z c src : List ℕ) (lo hi : ℕ)
    → lo ≡ length a
    → length a + length z ≤ hi
    → hi ≤ length a + (length z + length c)
    → length src ≡ length z
    → copy_into (a ++ (z ++ c)) lo hi src ≡ ret (a ++ (src ++ c))
unfolding copy_into
copy_into-append_le a z c src lo hi hl low high hs =
    let whole : length (a ++ (z ++ c)) ≡ length a + (length z + length c) =
      omega (arith, length-append {0} a (z ++ c), length-append {0} z c) in
    let all : take (hi - lo) src ≡ src = take_of_length-le (hi - lo) src (omega arith) in
    let test : (leb lo hi && leb hi (length (a ++ (z ++ c)))) ≡ true = ground arith in
    let front : take lo (a ++ (z ++ c)) ≡ a = rw hl (take-append a (z ++ c)) in
    let rest : drop (lo + length src) (a ++ (z ++ c)) ≡ c =
      rw (← append_assoc a z c)
        (drop-append (a ++ z) c (lo + length src) (omega (arith, length-append {0} a z))) in
    rw (test, all, front, rest) refl

-- The same for a slice that is just as long as the part.
pub copy_into-append :
    (a z c src : List ℕ) (lo hi : ℕ)
    → lo ≡ length a
    → hi ≡ length a + length z
    → length src ≡ length z
    → copy_into (a ++ (z ++ c)) lo hi src ≡ ret (a ++ (src ++ c))
copy_into-append a z c src lo hi hl hh hs =
    copy_into-append_le a z c src lo hi hl (omega arith) (omega arith) hs

pub copy_into_end :
    (a z src : List ℕ) (lo hi : ℕ)
    → lo ≡ length a
    → hi ≡ length a + length z
    → length src ≡ length z
    → copy_into (a ++ z) lo hi src ≡ ret (a ++ src)
copy_into_end a z src lo hi hl hh hs =
    simp append-nil at (copy_into-append a z [] src lo hi hl hh hs)

-- Four bytes of a packet.
abbrev pub four : List ℕ → ℕ → List ℕ
four b lo = byte b lo ∷ byte b (lo + 1) ∷ byte b (lo + 2) ∷ byte b (lo + 3) ∷ []

take_four : (l : List ℕ) → 4 ≤ length l → take 4 l ≡ byte l 0 ∷ byte l 1 ∷ byte l 2 ∷ byte l 3 ∷ []
take_four [] h = absurd (omega arith)
take_four (a ∷ []) h = absurd (omega arith)
take_four (a ∷ b ∷ []) h = absurd (omega arith)
take_four (a ∷ b ∷ c ∷ []) h = absurd (omega arith)
take_four (a ∷ b ∷ c ∷ d ∷ l) h = refl

pub slice-four :
    (b : List ℕ) (lo hi : ℕ) → hi ≡ lo + 4 → hi ≤ length b → slice b lo hi ≡ ret (four b lo)
slice-four b lo hi e h =
    let width : hi - lo ≡ 4 = omega arith in
    let zeroth : lo + 0 ≡ lo = omega arith in
    rw
      (
        slice_lem b lo hi (omega arith) h,
        width,
        take_four (drop lo b) (omega (arith, length-drop {0} lo b)),
        get_or-drop b lo 0,
        zeroth,
        get_or-drop b lo 1,
        get_or-drop b lo 2,
        get_or-drop b lo 3,
      )
      refl
