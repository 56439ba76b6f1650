-- ===== src/Matcher/IntrusiveList.antt =====
-- namespace `intrusiveList` of matcher.cpp: circular lists through a sentinel. `none` is a write
-- through a null pointer.
pub mod Append
pub mod Ring
pub mod Unlink
use espacekilly.Base.{ℕ, Bool, ◌||◌, Option, none, some, ◌==◌, if◌then◌else◌, update}
use espacekilly.Matcher.Memory.{Ptr, null, Heap}

abbrev pub is_valid_node : Ptr → Ptr → Bool
is_valid_node list_sentinel n = n == list_sentinel

abbrev pub tail : Heap → Ptr → Ptr
tail h list_sentinel = h.prev list_sentinel

abbrev pub head : Heap → Ptr → Ptr
head h list_sentinel = h.next list_sentinel

abbrev pub is_empty : Heap → Ptr → Bool
is_empty h list_sentinel = is_valid_node list_sentinel (h.prev list_sentinel)

abbrev pub set_next : Ptr → Ptr → Heap → Heap
set_next p q h = record h { next = update h.next p q }

abbrev pub set_prev : Ptr → Ptr → Heap → Heap
set_prev p q h = record h { prev = update h.prev p q }

unfoldable pub append : Heap → Ptr → Ptr → Option Heap
append h list_sentinel n =
    let h = set_prev n (h.prev list_sentinel) h in
    let h = set_next n list_sentinel h in
    if h.prev list_sentinel == null || n == null
    then none
    else let h = set_next (h.prev list_sentinel) n h in some (set_prev list_sentinel n h)

unfoldable pub unlink : Heap → Ptr → Option Heap
unlink h n =
    if h.prev n == null || h.next n == null
    then none
    else let h = set_next (h.prev n) (h.next n) h in some (set_prev (h.next n) (h.prev n) h)
