-- ===== src/Wire/ByteOrder.antt =====
-- udp_wire.h, `put` and `get`: what the byte order of the host has to do with the bytes on the wire.
use mathlib.Core.List.{reverse-cons, reverse-reverse}
use native.Mathlib.Nat.{pow-suc}
use espacekilly.Base.{
  ℕ, zero, suc, ◌/◌, ◌^◌, ◌<◌, ◌≡◌, refl, sym, ap, ap₂, ◌∙◌, List, [], ◌∷◌, ◌++◌, reverse, arith,
  length, length-append,
}
use espacekilly.Wire.Bytes.{
  Endian, little, big, le_bytes, of_le_bytes, to_memory, of_memory, byteswap, swap_to_big,
}

-- Network byte order: `w` bytes, the highest first.
unfoldable pub be_bytes : ℕ → ℕ → List ℕ
be_bytes w v = reverse (le_bytes w v)

abbrev pub AllBytes : List ℕ → Type 0
AllBytes [] = Unit {0}
AllBytes (b ∷ bs) = (b < 256) × AllBytes bs

length-reverse : (xs : List ℕ) → length (reverse xs) ≡ length xs
length-reverse [] = refl
length-reverse (x ∷ xs) =
    ap length (reverse-cons x xs)
    ∙ omega (arith, length-append {0} (reverse xs) (x ∷ []), length-reverse xs)

AllBytes-append : (xs ys : List ℕ) → AllBytes xs → AllBytes ys → AllBytes (xs ++ ys)
AllBytes-append [] ys a b = b
AllBytes-append (x ∷ xs) ys a b = (a.0, AllBytes-append xs ys a.1 b)

AllBytes-reverse : (xs : List ℕ) → AllBytes xs → AllBytes (reverse xs)
AllBytes-reverse [] a = tt
AllBytes-reverse (x ∷ xs) a =
    rw (reverse-cons x xs)
      (AllBytes-append (reverse xs) (x ∷ []) (AllBytes-reverse xs a.1) (a.0, tt))

length-le_bytes : (w v : ℕ) → length (le_bytes w v) ≡ w
unfolding le_bytes
length-le_bytes zero v = refl
length-le_bytes (suc w) v = ap suc (length-le_bytes w (v / 256))

le_bytes-AllBytes : (w v : ℕ) → AllBytes (le_bytes w v)
unfolding le_bytes
le_bytes-AllBytes zero v = tt
le_bytes-AllBytes (suc w) v = (omega arith, le_bytes-AllBytes w (v / 256))

of_le_bytes-le_bytes : (w v : ℕ) → v < 256 ^ w → of_le_bytes (le_bytes w v) ≡ v
unfolding le_bytes of_le_bytes
of_le_bytes-le_bytes zero v h = omega arith
of_le_bytes-le_bytes (suc w) v h =
    omega (arith, of_le_bytes-le_bytes w (v / 256) (omega (arith, pow-suc 256 w)))

le_bytes-of_le_bytes : (bs : List ℕ) → AllBytes bs → le_bytes (length bs) (of_le_bytes bs) ≡ bs
unfolding le_bytes of_le_bytes
le_bytes-of_le_bytes [] a = refl
le_bytes-of_le_bytes (b ∷ bs) a =
    ap₂ ◌∷◌ (omega arith) (ap (le_bytes (length bs)) (omega arith) ∙ le_bytes-of_le_bytes bs a.1)

pub length-be_bytes : (w v : ℕ) → length (be_bytes w v) ≡ w
unfolding be_bytes
length-be_bytes w v = length-reverse (le_bytes w v) ∙ length-le_bytes w v

pub be_bytes-AllBytes : (w v : ℕ) → AllBytes (be_bytes w v)
unfolding be_bytes
be_bytes-AllBytes w v = AllBytes-reverse _ (le_bytes-AllBytes w v)

le_bytes-of-be_bytes : (w v : ℕ) → le_bytes w (of_le_bytes (be_bytes w v)) ≡ be_bytes w v
le_bytes-of-be_bytes w v =
    ap (λ k. le_bytes k (of_le_bytes (be_bytes w v))) (sym (length-be_bytes w v))
    ∙ le_bytes-of_le_bytes (be_bytes w v) (be_bytes-AllBytes w v)

-- On either kind of host `put` leaves the bytes of the value in network order in memory.
pub to_memory-be_bytes : (e : Endian) (w v : ℕ) → to_memory e w (swap_to_big e w v) ≡ be_bytes w v
unfolding to_memory swap_to_big byteswap be_bytes
to_memory-be_bytes little w v = le_bytes-of-be_bytes w v
to_memory-be_bytes big w v = refl

-- On either kind of host `get` reads the value that the bytes have in network order.
pub of_memory-be_bytes :
    (e : Endian) (w v : ℕ) → v < 256 ^ w → swap_to_big e w (of_memory e (be_bytes w v)) ≡ v
unfolding of_memory swap_to_big byteswap be_bytes
of_memory-be_bytes little w v h =
    rw (le_bytes-of-be_bytes, reverse-reverse) (of_le_bytes-le_bytes w v h)
of_memory-be_bytes big w v h = rw reverse-reverse (of_le_bytes-le_bytes w v h)
