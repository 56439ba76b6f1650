-- ===== src/Wire/Bytes.antt =====
-- udp_common/udp_wire.h, `put` and `get`: the bytes of one integer in the buffer. A pointer into
-- the buffer is an index, and the buffer is the list of its bytes.
use espacekilly.Base.{
  ℕ, zero, suc, ◌+◌, ◌*◌, ◌/◌, ◌%◌, Option, none, some, List, [], ◌∷◌, reverse, get_elem?, set,
}

-- `std::endian::native`.
pub data Endian : Type 0 where
  little big : Endian

-- The bytes of an integer of `w` bytes, the lowest first.
unfoldable pub le_bytes : ℕ → ℕ → List ℕ
le_bytes zero v = []
le_bytes (suc w) v = v % 256 ∷ le_bytes w (v / 256)

unfoldable pub of_le_bytes : List ℕ → ℕ
of_le_bytes [] = 0
of_le_bytes (b ∷ bs) = b + 256 * of_le_bytes bs

-- What the bytes of a `w`-byte integer are in the memory of the host.
unfoldable pub to_memory : Endian → ℕ → ℕ → List ℕ
unfolding le_bytes
to_memory little w v = le_bytes w v
to_memory big w v = reverse (le_bytes w v)

unfoldable pub of_memory : Endian → List ℕ → ℕ
unfolding of_le_bytes
of_memory little bs = of_le_bytes bs
of_memory big bs = of_le_bytes (reverse bs)

-- `std::byteswap` on a `w`-byte integer.
unfoldable pub byteswap : ℕ → ℕ → ℕ
unfolding le_bytes of_le_bytes
byteswap w v = of_le_bytes (reverse (le_bytes w v))

-- `if constexpr (std::endian::native != std::endian::big) v = std::byteswap(v);`
unfoldable pub swap_to_big : Endian → ℕ → ℕ → ℕ
unfolding byteswap
swap_to_big little w v = byteswap w v
swap_to_big big w v = v

-- `std::memcpy` into the buffer, and out of it: `none` is a read behind the end of the buffer.
unfoldable pub write_at : List ℕ → ℕ → List ℕ → List ℕ
write_at buf p [] = buf
write_at buf p (b ∷ bs) = write_at (set buf p b) (suc p) bs

unfoldable pub read_at : List ℕ → ℕ → ℕ → Option (List ℕ)
read_at buf p zero = some []
read_at buf p (suc w) = elim (get_elem? buf p) [
  | none ↦ none
  | some b ↦ elim (read_at buf (suc p) w) [ none ↦ none | some bs ↦ some (b ∷ bs) ]
]

-- A buffer with the pointer `p` into it.
pub record Cursor : Type 0 where
  pub buf : List ℕ
  pub p : ℕ

-- `put<T>(p, v)`, for a `T` of `w` bytes and its bit pattern `v`.
unfoldable pub put : Endian → ℕ → ℕ → Cursor → Cursor
put e w v c = record { buf = write_at c.buf c.p (to_memory e w (swap_to_big e w v)); p = c.p + w }

-- `get<T>(p)`.
unfoldable pub get : Endian → ℕ → Cursor → Option (ℕ × Cursor)
get e w c = elim (read_at c.buf c.p w) [
  | none ↦ none
  | some bs ↦ some (swap_to_big e w (of_memory e bs), record c { p = c.p + w })
]
