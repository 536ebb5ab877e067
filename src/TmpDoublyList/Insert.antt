-- ===== src/TmpDoublyList/Insert.antt =====
-- MintServer/src/MTLibrary/List/TMPDoublyList.hpp: insertion next to a node, and by number.
pub mod Place
pub mod Order
use winsock_multi_thread_ser.Base.{
  ℕ, zero, suc, ◌+◌, Bool, true, false, leb, ◌==◌, if◌then◌else◌, Ptr, null, inc32, Run, ok,
  out_of_fuel, ◌>>=◌,
}
use winsock_multi_thread_ser.TmpDoublyList.{
  TmpDoublyList, get_next, set_next, get_prev, set_prev, link,
}

module _ {ℓ} {A : Type ℓ} where
  -- `LinkInsertPrev` and `LinkInsertNext` with no destination: at the head. `new_node->pNext` of a
  -- first node is `NULL`.
  insert_head : Ptr → TmpDoublyList A → Run (TmpDoublyList A)
  unfolding set_next set_prev
  insert_head p l = do
    l ← set_prev p null l
    if l.head_node == null
        then (do l ← set_next p null l; ok (record l { head_node = p; tail_node = p }))
        else do
          l ← set_next p l.head_node l
          l ← set_prev l.head_node p l
          ok (record l { head_node = p })

  insert_prev : Ptr → Ptr → TmpDoublyList A → Run (TmpDoublyList A)
  unfolding get_prev set_next set_prev
  insert_prev dest_node p l = do
    prev_node ← get_prev dest_node l
    l ← set_prev p prev_node l
    l ← set_next p dest_node l
    l ← if prev_node == null then ok l else set_next prev_node p l
    l ← set_prev dest_node p l
    ok (if prev_node == null then record l { head_node = p } else l)

  insert_next : Ptr → Ptr → TmpDoublyList A → Run (TmpDoublyList A)
  unfolding get_next set_next set_prev
  insert_next dest_node p l = do
    next_node ← get_next dest_node l
    l ← set_prev p dest_node l
    l ← set_next p next_node l
    l ← if next_node == null then ok l else set_prev next_node p l
    l ← set_next dest_node p l
    ok (if next_node == null then record l { tail_node = p } else l)

  abbrev counted : TmpDoublyList A → TmpDoublyList A
  counted l = record l { node_link_count = inc32 l.node_link_count }

  -- `LinkInsertPrev`.
  pub link_insert_prev : Ptr → Ptr → TmpDoublyList A → Run (TmpDoublyList A)
  unfolding insert_head insert_prev
  link_insert_prev dest_node p l = if p == null then ok l else do
    l ← if dest_node == null then insert_head p l else insert_prev dest_node p l
    ok (counted l)

  -- `LinkInsertNext`.
  pub link_insert_next : Ptr → Ptr → TmpDoublyList A → Run (TmpDoublyList A)
  unfolding insert_head insert_next
  link_insert_next dest_node p l = if p == null then ok l else do
    l ← if dest_node == null then insert_head p l else insert_next dest_node p l
    ok (counted l)

  -- The loop of `LinkInsertOrderWithNumber`: behind all nodes whose number is not above that of the
  -- new node.
  insert_order : ℕ → Ptr → Ptr → TmpDoublyList A → Run (TmpDoublyList A × Bool)
  unfolding get_next link link_insert_prev
  insert_order zero p node l = out_of_fuel
  insert_order (suc k) p node l =
      if node == null
      then ok (l, false)
      else if leb (l.node_number node) (l.node_number p)
      then (do
        n ← get_next node l
        if n == null then (do l ← link p l; ok (l, true)) else insert_order k p n l)
      else do l ← link_insert_prev node p l; ok (l, true)

  -- `LinkInsertOrderWithNumber`. The loop is given one round more than there are linked nodes.
  pub link_insert_order_with_number : Ptr → TmpDoublyList A → Run (TmpDoublyList A × Bool)
  unfolding insert_order link
  link_insert_order_with_number p l =
      if l.head_node == null
      then (do l ← link p l; ok (l, true))
      else insert_order (l.node_link_count + 1) p l.head_node l
