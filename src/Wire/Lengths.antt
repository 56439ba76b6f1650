-- ===== src/Wire/Lengths.antt =====
-- udp_wire.h: the lengths of the headers and bodies.
use espacekilly.Base.{ℕ, ◌+◌, ◌≡◌, refl, [], ◌∷◌, arith, length, length-append}
use espacekilly.Types.{NewRequest, new, cancel}
use espacekilly.Wire.ByteOrder.{be_bytes, length-be_bytes}
use espacekilly.Wire.Format.{Fields, body_fields, body_size, field_bytes}

width : Fields → ℕ
width [] = 0
width ((w, v) ∷ fs) = w + width fs

length-field_bytes : (fs : Fields) → length (field_bytes fs) ≡ width fs
unfolding width
length-field_bytes [] = refl
length-field_bytes ((w, v) ∷ fs) = omega (
  arith,
  length-append {0} (be_bytes w v) (field_bytes fs),
  length-be_bytes w v,
  length-field_bytes fs,
)

pub length-body : (req : NewRequest) → length (field_bytes (body_fields req)) ≡ body_size req
unfolding width
length-body (new r) = length-field_bytes (body_fields (new r))
length-body (cancel r) = length-field_bytes (body_fields (cancel r))

pub length-header :
    (seqnum n t : ℕ) → length (field_bytes ((2, seqnum) ∷ (4, n) ∷ (8, t) ∷ [])) ≡ 14
unfolding width
length-header seqnum n t = length-field_bytes ((2, seqnum) ∷ (4, n) ∷ (8, t) ∷ [])

pub length-request : (n t : ℕ) → length (field_bytes ((2, n) ∷ (4, t) ∷ [])) ≡ 6
unfolding width
length-request n t = length-field_bytes ((2, n) ∷ (4, t) ∷ [])
