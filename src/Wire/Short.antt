-- ===== src/Wire/Short.antt =====
-- udp_wire.h, `decodeDatagram`: what it reads of a datagram that is cut short.
use espacekilly.Base.{
  ℕ, zero, suc, ◌+◌, ◌-◌, ◌^◌, ◌≤◌, ◌<◌, ◌≡◌, refl, ap, ◌∙◌, ◌⊎◌, inl, inr, none, some, List, [],
  ◌∷◌, ◌++◌, append_assoc, append-nil, arith, length, length-append, length-take, get_elem?, take,
  ℤ, Bool-cases, ltb,
}
use espacekilly.Types.{NewRequest, new, cancel}
use espacekilly.Wire.Bytes.{Endian, Cursor, of_memory, read_at, swap_to_big, get}
use espacekilly.Wire.ByteOrder.{be_bytes}
use espacekilly.Wire.Datagram.{datagram_bytes, length-datagram}
use espacekilly.Wire.Decoding.{header-Reads, body_size-lt, type_number-lt}
use espacekilly.Wire.Format.{
  body_fields, body_size, field_bytes, header_fields, request_fields, type_number,
}
use espacekilly.Wire.Lengths.{length-header, length-request, length-body}
use espacekilly.Wire.Message.{
  Reader, pure, decode_body, decode_cancel, decode_datagram, decode_header, decode_messages,
  decode_new, of_int64, to_request_type,
}
use espacekilly.Wire.RoundTrip.{of_int64-lt}
use espacekilly.Wire.Transfer.{At, get-Reads}

get_elem?-past {ℓ} : {A : Type ℓ} (xs : List A) (i : ℕ) → length xs ≤ i → get_elem? xs i ≡ none
get_elem?-past [] i h = refl
get_elem?-past (x ∷ xs) zero h = absurd (omega arith)
get_elem?-past (x ∷ xs) (suc i) h = get_elem?-past xs i (omega arith)

get_elem?-within {ℓ} :
    {A : Type ℓ} (xs : List A) (i : ℕ) → i < length xs → (x : A) × (get_elem? xs i ≡ some x)
get_elem?-within [] i h = absurd (omega arith)
get_elem?-within (x ∷ xs) zero h = (x, refl)
get_elem?-within (x ∷ xs) (suc i) h = get_elem?-within xs i (omega arith)

take-append {ℓ} :
    {A : Type ℓ} (n : ℕ) (xs ys : List A)
    → length xs ≤ n
    → take n (xs ++ ys) ≡ xs ++ take (n - length xs) ys
take-append n [] ys h = let e : n - 0 ≡ n = omega arith in rw e refl
take-append zero (x ∷ xs) ys h = absurd (omega arith)
take-append (suc n) (x ∷ xs) ys h =
    let e : suc n - suc (length xs) ≡ n - length xs = omega arith in
    rw e (ap (λ l. x ∷ l) (take-append n xs ys (omega arith)))

-- A run that fails where there are fewer than `k` bytes left, and else moves on by them.
abbrev Takes : {A : Type 0} → Reader A → ℕ → Type 0
Takes {A = A} m k =
    (c : Cursor)
    → c.p ≤ length c.buf
    → ((length c.buf < c.p + k) × (m c ≡ none))
      ⊎ ((a : A) × (c.p + k ≤ length c.buf) × (m c ≡ some (a, record c { p = c.p + k })))

read_at-short :
    (buf : List ℕ) (p w : ℕ) → p ≤ length buf → length buf < p + w → read_at buf p w ≡ none
unfolding read_at
read_at-short buf p zero h k = absurd (omega arith)
read_at-short buf p (suc w) h k = elim (Bool-cases (ltb p (length buf))) [
  | inl e ↦
      let (b, here) = get_elem?-within buf p (ground arith) in
      rw (read_at, here, read_at-short buf (suc p) w (ground arith) (omega arith)) refl
  | inr e ↦ rw (read_at, get_elem?-past buf p (ground arith)) refl
]

read_at-whole :
    (buf : List ℕ) (p w : ℕ) → p + w ≤ length buf → (bs : List ℕ) × (read_at buf p w ≡ some bs)
unfolding read_at
read_at-whole buf p zero h = ([], refl)
read_at-whole buf p (suc w) h =
    let (b, e) = get_elem?-within buf p (omega arith) in
    let (bs, e') = read_at-whole buf (suc p) w (omega arith) in (b ∷ bs, rw (read_at, e, e') refl)

get-Takes : (e : Endian) (w : ℕ) → Takes (get e w) w
unfolding get
get-Takes e w c h = elim (Bool-cases (ltb (length c.buf) (c.p + w))) [
  | inl k ↦ inl (ground arith, rw (get, read_at-short c.buf c.p w h (ground arith)) refl)
  | inr k ↦
      let (bs, e') = read_at-whole c.buf c.p w (ground arith) in
      inr (swap_to_big e w (of_memory e bs), ground arith, rw (get, e') refl)
]

Takes-pure : {A : Type 0} (a : A) → Takes (pure a) 0
Takes-pure a c h = let e : c.p + 0 ≡ c.p = omega arith in inr (a, omega arith, rw e refl)

module _ {A B : Type 0} where
  Takes-bind :
      (m : Reader A) (f : A → Reader B) (j k : ℕ)
      → Takes m j
      → ((a : A) → Takes (f a) k)
      → Takes (λ c. elim (m c) [ none ↦ none | some (x, c') ↦ f x c' ]) (j + k)
  Takes-bind m f j k first then c h = elim (first c h) [
    | inl (short, e) ↦ inl (omega arith, rw e refl)
    | inr (a, room, e) ↦
        let sum : c.p + j + k ≡ c.p + (j + k) = omega arith in
        elim (then a (record c { p = c.p + j }) room) [
          | inl (short, e') ↦ inl (omega arith, rw e e')
          | inr (b, more, e') ↦ inr (b, omega arith, rw e (rw sum at e'))
        ]
  ]

header-Takes : (e : Endian) → Takes (decode_header e) 14
unfolding decode_header
header-Takes e = Takes-bind _ _ _ _ (get-Takes e 2) (λ a.
    Takes-bind _ _ _ _ (get-Takes e 4)
      (λ b. Takes-bind _ _ _ _ (get-Takes e 8) (λ d. Takes-pure b)))

decode_body-Takes :
    (e : Endian) (req : NewRequest)
    → Takes (decode_body e (to_request_type (type_number req))) (body_size req)
unfolding decode_body decode_new decode_cancel to_request_type
decode_body-Takes e (new r) = Takes-bind _ _ _ _ (get-Takes e 8) (λ a.
    Takes-bind _ _ _ _ (get-Takes e 8) (λ b. Takes-bind _ _ _ _ (get-Takes e 8) (λ d.
      Takes-bind _ _ _ _ (get-Takes e 1) (λ f. Takes-bind _ _ _ _ (get-Takes e 8) (λ g.
        Takes-bind _ _ _ _ (get-Takes e 8)
          (λ h. Takes-bind _ _ _ _ (get-Takes e 8) (λ i. Takes-pure _)))))))
decode_body-Takes e (cancel r) = Takes-bind _ _ _ _ (get-Takes e 8) (λ a.
    Takes-bind _ _ _ _ (get-Takes e 8)
      (λ b. Takes-bind _ _ _ _ (get-Takes e 8) (λ d. Takes-pure _)))

module _ {S : Type 0} (on_request : NewRequest → S → S) (s : S) (e : Endian) where
  -- Fewer bytes than a request header and its body.
  decode_messages-short :
      (req : NewRequest) (m : ℕ) (c : Cursor) (before : List ℕ)
      → m < 6 + body_size req
      → At c before (take m (field_bytes (request_fields req) ++ field_bytes (body_fields req)))
      → decode_messages on_request e 1 s c ≡ none
  unfolding decode_messages
  decode_messages-short req m c before h at =
      let request = field_bytes (request_fields req) in
      let body = field_bytes (body_fields req) in
      let l6 : length request ≡ 6 = length-request (body_size req) (type_number req) in
      let held : length (take m (request ++ body)) ≡ m =
        length-take m (request ++ body)
          (omega (arith, length-append {0} request body, l6, length-body req)) in
      let long : length c.buf ≡ c.p + m =
        ap length at.bytes
        ∙ omega (arith, at.place, held, length-append {0} before (take m (request ++ body))) in
      elim (Bool-cases (ltb m 6)) [
        | inl k ↦ elim (get-Takes e 2 c (omega arith)) [
          | inl (_, e1) ↦ ground (arith, e1)
          | inr (size, room, e1) ↦ elim (get-Takes e 4 (record c { p = c.p + 2 }) room) [
            | inl (_, e2) ↦ ground (arith, e1, e2)
            | inr (_, more, _) ↦ absurd (ground (arith, long, more, k))
          ]
        ]
        | inr k ↦
            let size = be_bytes 2 (body_size req) in
            let type = be_bytes 4 (type_number req) in
            let left = take (m - 6) body in
            let split : take m (request ++ body) ≡ size ++ (type ++ left) =
              take-append m request body (ground (arith, l6))
              ∙ ap (λ j. request ++ take (m - j) body) l6
              ∙ append_assoc size (type ++ []) left
              ∙ ap (λ t. size ++ (t ++ left)) (append-nil type) in
            let (c1, e1, at1) =
              get-Reads e 2 (body_size req) (body_size-lt req) c before (type ++ left)
                (record { bytes = at.bytes ∙ ap (◌++◌ before) split; place = at.place }) in
            let (c2, e2, at2) =
              get-Reads e 4 (type_number req) (type_number-lt req) c1 _ left at1 in
            elim (decode_body-Takes e req c2 (
              omega (
                arith,
                ap length at2.bytes,
                at2.place,
                length-append {0} ((before ++ size) ++ type) left,
              ))) [
                | inl (_, e3) ↦ ground (arith, e1, e2, e3)
                | inr (_, more, _) ↦ absurd (
                    ground (
                      arith,
                      ap length at2.bytes,
                      at2.place,
                      length-append {0} ((before ++ size) ++ type) left,
                      length-take (m - 6) body (ground (arith, length-body req)),
                    ))
              ]
      ]

  -- Decoding a datagram of `encodeDatagram` of which only the first `n` bytes are there, fewer than
  -- it has, reads behind them, whatever length the caller gives: the length is never looked at.
  pub decode_datagram-short :
      (seqnum len n : ℕ) (now_ns : ℤ) (req : NewRequest)
      → seqnum < 2 ^ 16
      → n < 20 + body_size req
      → decode_datagram on_request e (take n (datagram_bytes seqnum now_ns req)) len s ≡ none
  unfolding decode_datagram
  decode_datagram-short seqnum len n now_ns req hs h =
      let wire = datagram_bytes seqnum now_ns req in
      let header = field_bytes (header_fields seqnum 1 now_ns) in
      let both = field_bytes (request_fields req) ++ field_bytes (body_fields req) in
      let l14 : length header ≡ 14 = length-header seqnum 1 (of_int64 now_ns) in
      let held : length (take n wire) ≡ n =
        length-take n wire (omega (arith, length-datagram seqnum now_ns req)) in
      elim (Bool-cases (ltb n 14)) [
        | inl k ↦ elim (header-Takes e (record { buf = take n wire; p = 0 }) (omega arith)) [
          | inl (_, e1) ↦ rw (decode_datagram, e1) refl
          | inr (_, room, _) ↦ absurd (ground (arith, room, held, k))
        ]
        | inr k ↦
            let split : take n wire ≡ header ++ take (n - 14) both =
              take-append n header both (ground (arith, l14))
              ∙ ap (λ j. header ++ take (n - j) both) l14 in
            let (c1, e1, at1) =
              header-Reads e seqnum 1 (of_int64 now_ns) hs (omega arith) (of_int64-lt now_ns)
                (record { buf = take n wire; p = 0 }) [] (take (n - 14) both)
                (record { bytes = split; place = refl }) in
            let e2 = decode_messages-short req (n - 14) c1 header (ground arith) at1 in
            rw (decode_datagram, e1, e2) refl
      ]
