-- ===== src/Matcher/Priority/Withdraw.antt =====
-- An order is taken out of a queue, by its id.
use espacekilly.Base.{
  ℕ, ◌==◌, ◌≡◌, ◌≢◌, refl, true, false, Option, none, some, List, [], ◌∷◌, ◌++◌, arith, inl, inr,
  if◌then◌else◌, Bool-cases,
}
use espacekilly.Types.{Order}
use espacekilly.Matcher.Priority.{Entry}

-- An order that was taken out, and the queue behind it with one more order in front.
abbrev pub behind : Entry → Option (Order × List Entry) → Option (Order × List Entry)
behind e none = none
behind e (some (o, es)) = some (o, e ∷ es)

-- The first order with this id, and the queue without it.
unfoldable pub take_out : ℕ → List Entry → Option (Order × List Entry)
take_out id [] = none
take_out id ((price, o) ∷ es) =
    let rest = take_out id es in if o.id == id then some (o, es) else behind (price, o) rest

behind-none : (e : Entry) (r : Option (Order × List Entry)) → behind e r ≡ none → r ≡ none
behind-none e none h = refl
behind-none e (some (o, es)) h = cc

module _ (id : ℕ) where
  -- No order in the queue has the id, from its front on.
  pub take_out-miss :
      (price : ℕ) (o : Order) (es : List Entry)
      → o.id ≢ id
      → take_out id es ≡ none
      → take_out id ((price, o) ∷ es) ≡ none
  unfolding take_out
  take_out-miss price o es far e = let t : (o.id == id) ≡ false = ground arith in rw (t, e) refl

  take_out-missed :
      (price : ℕ) (o : Order) (es : List Entry)
      → take_out id ((price, o) ∷ es) ≡ none
      → (o.id ≢ id) × (take_out id es ≡ none)
  unfolding take_out
  take_out-missed price o es e = elim (Bool-cases (o.id == id)) [
    | inl t ↦ let h = rw t at e in cc
    | inr t ↦ (ground arith, behind-none (price, o) (take_out id es) (rw t at e))
  ]

  pub take_out-append :
      (xs ys : List Entry)
      → take_out id xs ≡ none
      → take_out id ys ≡ none
      → take_out id (xs ++ ys) ≡ none
  take_out-append [] ys e f = f
  take_out-append ((price, o) ∷ xs) ys e f =
      let (far, e') = take_out-missed price o xs e in
      take_out-miss price o (xs ++ ys) far (take_out-append xs ys e' f)

  -- Where no other order has the id, that one is found, wherever it stands.
  pub take_out-found :
      (xs : List Entry) (price : ℕ) (o : Order) (ys : List Entry)
      → o.id ≡ id
      → take_out id (xs ++ ys) ≡ none
      → take_out id (xs ++ (price, o) ∷ ys) ≡ some (o, xs ++ ys)
  unfolding take_out
  take_out-found [] price o ys e f = let t : (o.id == id) ≡ true = ground arith in rw t refl
  take_out-found ((p, x) ∷ xs) price o ys e f =
      let (far, f') = take_out-missed p x (xs ++ ys) f in
      let t : (x.id == id) ≡ false = ground arith in rw (t, take_out-found xs price o ys e f') refl
