-- ===== src/Mail/Md5.antt =====
-- QX-mail/general.c and qmail_gen.h: MD5bin and GetMD5.
pub mod Padding
use Prim.Native.Nat.{bit_or, bit_xor}
use qnxstuff.Prelude.{
  ℕ, zero, suc, ◌+◌, ◌-◌, ◌*◌, ◌/◌, ◌%◌, ◌^◌, bit_and, List, [], ◌∷◌, ◌++◌, ltb, leb, if◌then◌else◌,
  length, set, drop,
}
use qnxstuff.Prelude.Memory.{load32}
use qnxstuff.Mail.Lines.{poke}

abbrev pub word : ℕ → ℕ
word n = n % 4294967296

-- `~d` on 32 bits
abbrev pub bit_not : ℕ → ℕ
bit_not d = 4294967295 - d

-- The macros _FF, _FG, _FH and _FI
abbrev pub ff : ℕ → ℕ → ℕ → ℕ
ff b c d = bit_xor d (bit_and b (bit_xor c d))

abbrev pub fg : ℕ → ℕ → ℕ → ℕ
fg b c d = ff d b c

abbrev pub fh : ℕ → ℕ → ℕ → ℕ
fh b c d = bit_xor (bit_xor b c) d

abbrev pub fi : ℕ → ℕ → ℕ → ℕ
fi b c d = bit_xor c (bit_or b (bit_not d))

-- CYCLIC
abbrev pub cyclic : ℕ → ℕ → ℕ
cyclic w s = bit_or (word (w * 2 ^ s)) (w / 2 ^ (32 - s))

-- The macro OP: what is assigned to its second argument.
abbrev pub op : (ℕ → ℕ → ℕ → ℕ) → ℕ → ℕ → ℕ → ℕ → ℕ → ℕ → ℕ → ℕ
op f a b c d s m t = word (cyclic (word (a + f b c d + m + t)) s + b)

pub record Registers : Type 0 where
  pub a : ℕ
  pub b : ℕ
  pub c : ℕ
  pub d : ℕ

-- A line of a phase: the shift, the word of the block, and the constant.
pub record Line : Type 0 where
  pub shift : ℕ
  pub from : ℕ
  pub constant : ℕ

abbrev pub row : ℕ → ℕ → ℕ → Line
row s i t = record { shift = s; from = i; constant = t }

-- The code names the registers in turn, (A, B, C, D), (D, A, B, C) and so on; here the names move on
-- instead, and are back in place after four lines.
unfoldable pub phase : (ℕ → ℕ → ℕ → ℕ) → List Line → List ℕ → Registers → Registers
phase f [] block r = r
phase f (l ∷ ls) block r = phase f ls block (record {
  a = r.d;
  b = op f r.a r.b r.c r.d l.shift (load32 block (4 * l.from)) l.constant;
  c = r.b;
  d = r.c;
})

abbrev pub phase1 : List Line
phase1 =
    row 7 0 0xd76aa478
    ∷ row 12 1 0xe8c7b756
    ∷ row 17 2 0x242070db
    ∷ row 22 3 0xc1bdceee
    ∷ row 7 4 0xf57c0faf
    ∷ row 12 5 0x4787c62a
    ∷ row 17 6 0xa8304613
    ∷ row 22 7 0xfd469501
    ∷ row 7 8 0x698098d8
    ∷ row 12 9 0x8b44f7af
    ∷ row 17 10 0xffff5bb1
    ∷ row 22 11 0x895cd7be
    ∷ row 7 12 0x6b901122
    ∷ row 12 13 0xfd987193
    ∷ row 17 14 0xa679438e
    ∷ row 22 15 0x49b40821
    ∷ []

abbrev pub phase2 : List Line
phase2 =
    row 5 1 0xf61e2562
    ∷ row 9 6 0xc040b340
    ∷ row 14 11 0x265e5a51
    ∷ row 20 0 0xe9b6c7aa
    ∷ row 5 5 0xd62f105d
    ∷ row 9 10 0x02441453
    ∷ row 14 15 0xd8a1e681
    ∷ row 20 4 0xe7d3fbc8
    ∷ row 5 9 0x21e1cde6
    ∷ row 9 14 0xc33707d6
    ∷ row 14 3 0xf4d50d87
    ∷ row 20 8 0x455a14ed
    ∷ row 5 13 0xa9e3e905
    ∷ row 9 2 0xfcefa3f8
    ∷ row 14 7 0x676f02d9
    ∷ row 20 12 0x8d2a4c8a
    ∷ []

abbrev pub phase3 : List Line
phase3 =
    row 4 5 0xfffa3942
    ∷ row 11 8 0x8771f681
    ∷ row 16 11 0x6d9d6122
    ∷ row 23 14 0xfde5380c
    ∷ row 4 1 0xa4beea44
    ∷ row 11 4 0x4bdecfa9
    ∷ row 16 7 0xf6bb4b60
    ∷ row 23 10 0xbebfbc70
    ∷ row 4 13 0x289b7ec6
    ∷ row 11 0 0xeaa127fa
    ∷ row 16 3 0xd4ef3085
    ∷ row 23 6 0x04881d05
    ∷ row 4 9 0xd9d4d039
    ∷ row 11 12 0xe6db99e5
    ∷ row 16 15 0x1fa27cf8
    ∷ row 23 2 0xc4ac5665
    ∷ []

abbrev pub phase4 : List Line
phase4 =
    row 6 0 0xf4292244
    ∷ row 10 7 0x432aff97
    ∷ row 15 14 0xab9423a7
    ∷ row 21 5 0xfc93a039
    ∷ row 6 12 0x655b59c3
    ∷ row 10 3 0x8f0ccc92
    ∷ row 15 10 0xffeff47d
    ∷ row 21 1 0x85845dd1
    ∷ row 6 8 0x6fa87e4f
    ∷ row 10 15 0xfe2ce6e0
    ∷ row 15 6 0xa3014314
    ∷ row 21 13 0x4e0811a1
    ∷ row 6 4 0xf7537e82
    ∷ row 10 11 0xbd3af235
    ∷ row 15 2 0x2ad7d2bb
    ∷ row 21 9 0xeb86d391
    ∷ []

-- One turn of the loop over the blocks.
unfoldable pub turn : List ℕ → Registers → Registers
unfolding phase
turn block r =
    let s =
      phase fi phase4 block
        (phase fh phase3 block (phase fg phase2 block (phase ff phase1 block r))) in
    record {
      a = word (r.a + s.a);
      b = word (r.b + s.b);
      c = word (r.c + s.c);
      d = word (r.d + s.d);
    }

unfoldable pub turns : ℕ → List ℕ → Registers → Registers
turns zero msg r = r
turns (suc n) msg r = turns n (drop 64 msg) (turn msg r)

abbrev pub zeros : ℕ → List ℕ
zeros zero = []
zeros (suc n) = 0 ∷ zeros n

-- The four bytes of a 32-bit word in memory.
abbrev pub store32 : ℕ → List ℕ
store32 n = n % 256 ∷ n / 256 % 256 ∷ n / 65536 % 256 ∷ n / 16777216 % 256 ∷ []

-- The length of the padded message in words.
unfoldable pub padded_words : ℕ → ℕ
padded_words buflen = (buflen / 64 + 1) * 16 + (if leb 56 (buflen % 64) then 16 else 0)

-- The padded message: memset, memcpy, the byte 0x80, the number of bits.
unfoldable pub padded : List ℕ → List ℕ
unfolding padded_words
padded buf =
    let words = padded_words (length buf) in
    let copied = poke (zeros (words * 4)) 0 buf in
    poke (set copied (length buf) 0x80) ((words - 2) * 4) (store32 (word (length buf * 8)))

abbrev pub start : Registers
start = record { a = 0x67452301; b = 0xefcdab89; c = 0x98badcfe; d = 0x10325476 }

-- MD5bin
unfoldable pub md5_bin : List ℕ → List ℕ
unfolding padded turns turn
md5_bin buf =
    let r = turns (padded_words (length buf) / 16) (padded buf) start in
    store32 r.a ++ (store32 r.b ++ (store32 r.c ++ store32 r.d))

abbrev pub hex_digit : ℕ → ℕ
hex_digit n = if ltb n 10 then b'0' + n else b'a' + n - 10

-- The words are printed with their bytes swapped: each byte in the order of memory.
abbrev pub hex : List ℕ → List ℕ
hex [] = []
hex (c ∷ bytes) = hex_digit (c / 16) ∷ hex_digit (c % 16) ∷ hex bytes

-- GetMD5
unfoldable pub get_md5 : List ℕ → List ℕ
unfolding md5_bin
get_md5 buf = hex (md5_bin buf)
