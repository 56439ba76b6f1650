-- ===== src/Wire/Transfer.antt =====
-- udp_wire.h, `put` and `get`: where they write and read.
use espacekilly.Base.{
  ℕ, suc, ◌+◌, ◌^◌, ◌≤◌, ◌<◌, ◌≡◌, refl, sym, ap, ap₂, ◌∙◌, none, some, List, [], ◌∷◌, ◌++◌,
  append_assoc, append-nil, arith, length, length-append, drop, drop-drop, length-drop, set,
  set-append_mid, get_elem?, get_elem?-append_mid, Option,
}
use espacekilly.Wire.Bytes.{Endian, write_at, read_at, Cursor, put, get}
use espacekilly.Wire.ByteOrder.{be_bytes, length-be_bytes, to_memory-be_bytes, of_memory-be_bytes}

-- The pointer stands between `before` and `rest`.
pub record At (c : Cursor) (before rest : List ℕ) : Type 0 where
  pub bytes : c.buf ≡ before ++ rest
  pub place : c.p ≡ length before

length-snoc : (xs : List ℕ) (x : ℕ) → length (xs ++ x ∷ []) ≡ suc (length xs)
length-snoc xs x = omega (arith, length-append {0} xs (x ∷ []))

write_at-append :
    (before rest bs : List ℕ) (p : ℕ)
    → p ≡ length before
    → length bs ≤ length rest
    → write_at (before ++ rest) p bs ≡ (before ++ bs) ++ drop (length bs) rest
unfolding write_at
write_at-append before rest [] p e h = ap (λ l. l ++ rest) (sym (append-nil before))
write_at-append before [] (b ∷ bs) p e h = absurd (omega arith)
write_at-append before (x ∷ rest) (b ∷ bs) p e h =
    ap₂ (λ l q. write_at l q bs) grown (ap suc e ∙ sym (length-snoc before b))
    ∙ write_at-append (before ++ b ∷ []) rest bs _ refl (omega arith)
    ∙ ap (λ l. l ++ drop (length bs) rest) (append_assoc before (b ∷ []) bs)
  where
    grown : set (before ++ x ∷ rest) p b ≡ (before ++ b ∷ []) ++ rest
    grown = rw (e, set-append_mid before x b rest) (sym (append_assoc before (b ∷ []) rest))

read_at-append :
    (before bs rest : List ℕ) (p : ℕ)
    → p ≡ length before
    → read_at (before ++ (bs ++ rest)) p (length bs) ≡ some bs
unfolding read_at
read_at-append before [] rest p e = refl
read_at-append before (b ∷ bs) rest p e =
    let next : read_at (before ++ b ∷ (bs ++ rest)) (suc p) (length bs) ≡ some bs =
      rw (e, ← append_assoc before (b ∷ []) (bs ++ rest), ← length-snoc before b)
        (read_at-append (before ++ b ∷ []) bs rest _ refl) in
    let here : get_elem? (before ++ b ∷ (bs ++ rest)) p ≡ some b =
      rw e (get_elem?-append_mid before b (bs ++ rest)) in
    ground (arith, here, next)

-- A run that writes the bytes `bs` at the pointer, and leaves it behind them.
abbrev pub Writes : (Cursor → Cursor) → List ℕ → Type 0
Writes f bs =
    (c : Cursor) (before rest : List ℕ)
    → At c before rest
    → length bs ≤ length rest
    → At (f c) (before ++ bs) (drop (length bs) rest)

-- A run that finds the bytes `bs` at the pointer, returns `a`, and leaves it behind them.
abbrev pub Reads {ℓ} : {A : Type ℓ} → (Cursor → Option (A × Cursor)) → A → List ℕ → Type ℓ
Reads m a bs =
    (c : Cursor) (before rest : List ℕ)
    → At c before (bs ++ rest)
    → (c' : Cursor) × (m c ≡ some (a, c')) × At c' (before ++ bs) rest

pub put-Writes : (e : Endian) (w v : ℕ) → Writes (put e w v) (be_bytes w v)
unfolding put
put-Writes e w v c before rest at room = record {
  bytes =
      rw (to_memory-be_bytes, at.bytes)
        (write_at-append before rest (be_bytes w v) c.p at.place room);
  place = omega (arith, at.place, length-append {0} before (be_bytes w v), length-be_bytes w v);
}

pub get-Reads : (e : Endian) (w v : ℕ) → v < 256 ^ w → Reads (get e w) v (be_bytes w v)
unfolding get
get-Reads e w v small c before rest at =
    let found : read_at c.buf c.p w ≡ some (be_bytes w v) = rw at.bytes (
      ap (read_at (before ++ (be_bytes w v ++ rest)) c.p) (sym (length-be_bytes w v))
      ∙ read_at-append before (be_bytes w v) rest c.p at.place) in
    (
      record c { p = c.p + w },
      rw (get, found, of_memory-be_bytes e w v small),
      record {
        bytes = at.bytes ∙ sym (append_assoc before (be_bytes w v) rest);
        place =
            omega (arith, at.place, length-append {0} before (be_bytes w v), length-be_bytes w v);
      },
    )

pub Writes-then :
    (f g : Cursor → Cursor) (bs cs : List ℕ)
    → Writes f bs
    → Writes g cs
    → Writes (λ c. g (f c)) (bs ++ cs)
Writes-then f g bs cs wf wg c before rest at room =
    let both : length (bs ++ cs) ≡ length bs + length cs = length-append bs cs in
    let first = wf c before rest at (omega arith) in
    let second =
      wg (f c) (before ++ bs) (drop (length bs) rest) first
        (omega (arith, length-drop (length bs) rest)) in
    record {
      bytes =
          second.bytes
          ∙ ap₂ ◌++◌ (append_assoc before bs cs)
              (drop-drop (length bs) (length cs) rest ∙ ap (λ k. drop k rest) (sym both));
      place = second.place ∙ ap length (append_assoc before bs cs);
    }

pub Reads-pure {ℓ} : {A : Type ℓ} (a : A) → Reads (λ c. some (a, c)) a []
Reads-pure a c before rest at = (c, refl, rw append-nil at)

module _ {A B : Type 0} where
  pub Reads-bind :
      (m : Cursor → Option (A × Cursor)) (f : A → Cursor → Option (B × Cursor)) (a : A) (b : B)
      (bs cs : List ℕ)
      → Reads m a bs
      → Reads (f a) b cs
      → Reads (λ c. elim (m c) [ none ↦ none | some (x, c') ↦ f x c' ]) b (bs ++ cs)
  Reads-bind m f a b bs cs rm rf c before rest at =
      let (c', e, at') = rm c before (cs ++ rest) (record {
        bytes = at.bytes ∙ ap (◌++◌ before) (append_assoc bs cs rest);
        place = at.place;
      }) in
      let (c'', e', at'') = rf c' (before ++ bs) rest at' in
      (c'', rw e e', rw (← append_assoc before bs cs) at'')
