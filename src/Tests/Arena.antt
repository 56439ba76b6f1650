-- ===== src/Tests/Arena.antt =====
-- The arrays of an order book in an arena that hands out its bytes from the front.
use espacekilly.Base.{
  ℕ, ◌+◌, ◌-◌, ◌*◌, ◌/◌, ◌%◌, ◌≤◌, ◌<◌, ◌≡◌, refl, Option, some, none, arith, leb, true,
  if◌then◌else◌,
}
use espacekilly.Matcher.Arena.{Elements, alloc_size, round_up, k_huge_page}
use espacekilly.Matcher.Arena.Placed.{alloc_size-page, Monotonic, Places, order_book_arrays-Places}
use espacekilly.Types.{arr_size}
use native.Mathlib.Nat.{div-add-mod', mod-lt, mul-mod_left}

abbrev next_multiple : ℕ → ℕ → ℕ
next_multiple used align = (used + align - 1) / align * align

abbrev bump : ℕ → ℕ → ℕ → ℕ → Option (ℕ × ℕ)
bump size used bytes align =
    let start = next_multiple used align in
    if leb (start + bytes) size then some (start, start + bytes) else none

bump-Monotonic : Monotonic bump
bump-Monotonic size used bytes align p t h =
    let start = next_multiple used align in
    let whole = div-add-mod' (used + align - 1) align in
    let rest = mod-lt (used + align - 1) p in
    let fits : leb (start + bytes) size ≡ true = ground arith in
    (
      start,
      rw fits refl,
      omega (arith, whole, rest),
      omega (arith, whole, rest),
      mul-mod_left ((used + align - 1) / align) align,
    )

abbrev compiled : Elements
compiled = record {
  message_response = record { size = 32; align = 8 };
  orders_for_tick = record { size = 48; align = 8 };
  order_node = record { size = 48; align = 8 };
  pointer = record { size = 8; align = 8 };
}

order_book_arrays-Places_example : Places bump compiled
order_book_arrays-Places_example = order_book_arrays-Places bump compiled bump-Monotonic (
  (omega arith, omega arith, omega arith, refl),
  (omega arith, omega arith, omega arith, refl),
  (omega arith, omega arith, omega arith, refl),
  (omega arith, omega arith, omega arith, refl),
)

alloc_size-page_example :
    (alloc_size 32 ≡ round_up (arr_size * 32) k_huge_page)
    × (alloc_size 32 % k_huge_page ≡ 0)
    × (arr_size * 32 ≤ alloc_size 32)
    × (alloc_size 32 < arr_size * 32 + k_huge_page)
alloc_size-page_example = alloc_size-page 32 (omega arith)
