-- ===== src/Dislocator/Store.antt =====
-- A memory as a function from addresses: `none` where nothing is mapped or access is denied.
use aflgo.Common.{
  ℕ, zero, suc, ◌+◌, ◌*◌, ◌/◌, ◌%◌, ◌==◌, ltb, leb, if◌then◌else◌, ◌&&◌, Option, none, some,
}

abbrev pub Memory : Type 0
Memory = ℕ → Option ℕ

-- A fresh mapping is zeroed.
abbrev pub map_zero : ℕ → ℕ → Memory → Memory
map_zero p n mem a = if leb p a && ltb a (p + n) then some 0 else mem a

abbrev pub protect : ℕ → ℕ → Memory → Memory
protect p n mem a = if leb p a && ltb a (p + n) then none else mem a

-- A write of one byte, refused where there is no access.
abbrev pub store : ℕ → ℕ → Memory → Option Memory
store p v mem = elim (mem p) [ none ↦ none | some _ ↦ some (λ a. if a == p then some v else mem a) ]

-- `memset`
unfoldable pub fill : ℕ → ℕ → ℕ → Memory → Option Memory
fill p zero v mem = some mem
fill p (suc n) v mem = elim (store p v mem) [ none ↦ none | some m ↦ fill (p + 1) n v m ]

-- `memcpy`
unfoldable pub copy : ℕ → ℕ → ℕ → Memory → Option Memory
copy dst src zero mem = some mem
copy dst src (suc n) mem = elim (mem src) [
  | none ↦ none
  | some v ↦ elim (store dst v mem) [ none ↦ none | some m ↦ copy (dst + 1) (src + 1) n m ]
]

-- A little-endian `u32` of four bytes, where all four can be read.
unfoldable pub join : Option ℕ → Option ℕ → Option ℕ → Option ℕ → Option ℕ
join (some b0) (some b1) (some b2) (some b3) = some (b0 + 256 * (b1 + 256 * (b2 + 256 * b3)))
join (some b0) (some b1) (some b2) none = none
join (some b0) (some b1) none o = none
join (some b0) none o o' = none
join none o o' o'' = none

-- A `u32` read.
abbrev pub load32 : ℕ → Memory → Option ℕ
load32 p mem = join (mem p) (mem (p + 1)) (mem (p + 2)) (mem (p + 3))

-- The four bytes of a `u32` in place.
abbrev pub put32 : ℕ → ℕ → Memory → Memory
put32 p v mem a =
    if a == p
    then some (v % 256)
    else if a == p + 1
    then some (v / 256 % 256)
    else if a == p + 2
    then some (v / 65536 % 256)
    else if a == p + 3
    then some (v / 16777216 % 256)
    else mem a

-- A `u32` write, refused unless its four bytes are mapped.
unfoldable pub store32 : ℕ → ℕ → Memory → Option Memory
store32 p v mem = elim (load32 p mem) [ none ↦ none | some _ ↦ some (put32 p v mem) ]
