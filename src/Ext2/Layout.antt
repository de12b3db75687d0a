-- ===== src/Ext2/Layout.antt =====
-- The little-endian fields of a block as kernel/fs/ext2.c reads and writes them through its packed
-- structs, `memcpy` into a buffer, and the bits of a bitmap.
use aether_os.Prelude.{
  ℕ, zero, suc, ◌+◌, ◌-◌, ◌*◌, ◌/◌, ◌%◌, ◌^◌, Bool, true, false, ◌&&◌, Option, none, some, List, [],
  ◌∷◌, ◌++◌, ◌==◌, if◌then◌else◌, length, get_or, set, take, drop,
}

abbrev pub Bytes : Type 0
Bytes = List ℕ

abbrev pub byte_at : Bytes → ℕ → ℕ
byte_at b i = get_or b i 0

abbrev pub le16 : Bytes → ℕ → ℕ
le16 b i = byte_at b i + 256 * byte_at b (i + 1)

unfoldable pub le32 : Bytes → ℕ → ℕ
le32 b i = le16 b i + 65536 * le16 b (i + 2)

abbrev pub put16 : Bytes → ℕ → ℕ → Bytes
put16 b i v = set (set b i (v % 256)) (i + 1) (v / 256 % 256)

unfoldable pub put32 : Bytes → ℕ → ℕ → Bytes
put32 b i v = put16 (put16 b i (v % 65536)) (i + 2) (v / 65536 % 65536)

-- `memcpy` of `xs` to `i`; of `n` bytes from `i` it is `slice b i n`.
unfoldable pub splice : Bytes → ℕ → Bytes → Bytes
splice b i xs = take i b ++ (xs ++ drop (i + length xs) b)

-- `memcmp(a, b, n) == 0` for strings of this length.
unfoldable pub equal_bytes : Bytes → Bytes → Bool
equal_bytes [] [] = true
equal_bytes [] (y ∷ ys) = false
equal_bytes (x ∷ xs) [] = false
equal_bytes (x ∷ xs) (y ∷ ys) = x == y && equal_bytes xs ys

-- `bmap[i / 8] & (1U << (i % 8))`, and `|=` and `&= ~` of that mask.
abbrev pub has_bit : Bytes → ℕ → Bool
has_bit bmap i = byte_at bmap (i / 8) / 2 ^ (i % 8) % 2 == 1

pub set_bit : Bytes → ℕ → Bytes
set_bit bmap i =
    if has_bit bmap i then bmap else set bmap (i / 8) (byte_at bmap (i / 8) + 2 ^ (i % 8))

pub clear_bit : Bytes → ℕ → Bytes
clear_bit bmap i =
    if has_bit bmap i then set bmap (i / 8) (byte_at bmap (i / 8) - 2 ^ (i % 8)) else bmap

-- `for (i = 0; i < n; i++) if (!(bmap[i / 8] & (1U << (i % 8)))) { bit = i; break; }` with `n`
-- rounds left.
pub find_clear : ℕ → ℕ → Bytes → Option ℕ
find_clear zero i bmap = none
find_clear (suc n) i bmap =
    let rest = find_clear n (i + 1) bmap in if has_bit bmap i then rest else some i
