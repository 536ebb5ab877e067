-- ===== src/SinglyList.antt =====
-- List/SinglyList.hpp: a singly linked list whose nodes come from `new`. Its pointers are those of
-- TMPSinglyList.hpp, without the array in the memory pool: the members for that stay as they are. The data
-- of a node is the pointer `pData`.
pub mod Unlink
use winsock_multi_thread_ser.Base.{
  ℕ, zero, suc, ◌+◌, ◌-◌, ◌%◌, ◌<◌, ◌≡◌, ◌≢◌, refl, inl, inr, Bool-cases, true, false, ltb, ◌==◌,
  if◌then◌else◌, ==-refl, Option, none, some, Ptr, null, inc32, u32, Run, ok, fault, out_of_fuel,
  ◌>>=◌, update, Returns, returns, arith,
}
use winsock_multi_thread_ser.TmpSinglyList
use winsock_multi_thread_ser.TmpSinglyList.{TmpSinglyList, get_next, set_next}

abbrev pub SinglyList : Type 0
SinglyList = TmpSinglyList Ptr

-- `Create`.
unfoldable pub create : SinglyList → SinglyList
create l = record l {
  head_node = null;
  tail_node = null;
  node_use_count = 0;
  node_link_count = 0;
  free_list = null;
  free_list_count = 0;
}

-- `MY_DELETE` of a node: at an address with none, that is undefined.
unfoldable pub my_delete : Ptr → SinglyList → Run SinglyList
my_delete p l = if l.live p then ok (record l { live = update l.live p false }) else fault

-- A loop of `Release`: the pointer to the next node is read, and then the node is deleted.
unfoldable pub release_chain : ℕ → Ptr → SinglyList → Run SinglyList
unfolding my_delete get_next
release_chain zero node l = out_of_fuel
release_chain (suc k) node l =
    if node == null then ok l else do n ← get_next node l; l ← my_delete node l; release_chain k n l

-- `Release`. Each loop is given one round more than its counter says.
unfoldable pub release : SinglyList → Run SinglyList
unfolding release_chain create
release l = do
  l' ← release_chain (l.node_link_count + 1) l.head_node l
  l'' ← release_chain (l'.free_list_count + 1) l'.free_list l'
  ok (create l'')

-- The end of `GetNode`, for both of its sources.
unfoldable pub fill_node : Ptr → Ptr → SinglyList → Run (SinglyList × Ptr)
fill_node user_data node l =
    if l.live node
    then ok (
      record l {
        node_number = update l.node_number node 0;
        node_data = update l.node_data node user_data;
        next = update l.next node null;
        node_use_count = inc32 l.node_use_count;
      },
      node,
    )
    else fault

-- `GetNode`, where `new_node` is what `new` returns.
unfoldable pub get_node : Ptr → Ptr → SinglyList → Run (SinglyList × Ptr)
unfolding fill_node get_next
get_node new_node user_data l =
    if ltb 0 l.free_list_count
    then (do
      n ← get_next l.free_list l
      fill_node user_data l.free_list
          (record l { free_list = n; free_list_count = l.free_list_count - 1 }))
    else fill_node user_data new_node
        (if new_node == null then l else record l { live = update l.live new_node true })

-- `ReleaseNode`: the list, and the caller's pointer.
unfoldable pub release_node : Ptr → SinglyList → Run (SinglyList × Ptr)
unfolding my_delete
release_node p l =
    if p == null
    then ok (l, p)
    else if l.node_use_count == 0
    then ok (l, p)
    else do l ← my_delete p l; ok (record l { node_use_count = l.node_use_count - 1 }, null)

-- `FreeNode`: `pNext` is written only where the free list is not empty.
unfoldable pub free_node : Ptr → SinglyList → Run (SinglyList × Ptr)
unfolding set_next
free_node p l =
    if p == null
    then ok (l, p)
    else if l.node_use_count == 0
    then ok (l, p)
    else if l.live p
    then (do
      l ← ok (record l {
        node_number = update l.node_number p 0;
        node_data = update l.node_data p null;
      })
      l ← if ltb 0 l.free_list_count then set_next p l.free_list l else ok l
      ok (
        record l {
          free_list = p;
          free_list_count = inc32 l.free_list_count;
          node_use_count = l.node_use_count - 1;
        },
        null,
      ))
    else fault

-- Linking and searching are as in `TMPSinglyList`.
unfoldable pub link : Ptr → SinglyList → Run SinglyList
link = TmpSinglyList.link

unfoldable pub link_to_head : Ptr → SinglyList → Run SinglyList
link_to_head = TmpSinglyList.link_to_head

unfoldable pub search_node_with_number : ℕ → SinglyList → Run Ptr
search_node_with_number = TmpSinglyList.search_node_with_number

-- The loop of `Unlink`: the node before the one that is searched, `NULL` where that is the first one.
unfoldable pub find : ℕ → Ptr → Ptr → Ptr → SinglyList → Run (Option Ptr)
unfolding get_next
find zero target prev_node node l = out_of_fuel
find (suc k) target prev_node node l =
    if node == null
    then ok none
    else if node == target
    then ok (some prev_node)
    else do n ← get_next node l; find k target node n l

-- The links round the node that leaves: both ends are `NULL` when it is the only one.
unfoldable pub cut : Ptr → Ptr → SinglyList → Run SinglyList
unfolding get_next set_next
cut prev_node target l =
    if prev_node == null
    then (if l.head_node == l.tail_node
        then ok (record l { head_node = null; tail_node = null })
        else (do n ← get_next l.head_node l; ok (record l { head_node = n })))
    else if target == l.tail_node
    then set_next prev_node null (record l { tail_node = prev_node })
    else (do n ← get_next target l; set_next prev_node n l)

unfoldable pub detach : Ptr → SinglyList → Option Ptr → Run SinglyList
unfolding cut set_next
detach target l none = ok l
detach target l (some prev_node) = do
  l ← cut prev_node target l
  l ← set_next target null l
  ok (if ltb 0 l.node_link_count then record l { node_link_count = l.node_link_count - 1 } else l)

-- `Unlink`. The loop is given one round more than there are linked nodes.
unfoldable pub unlink : Ptr → SinglyList → Run SinglyList
unfolding find detach
unlink target l =
    if target == null
    then ok l
    else do found ← find (l.node_link_count + 1) target null l.head_node l; detach target l found

-- A node that was given back is the one that `GetNode` returns next, with the new data and no
-- successor, and the counters are as before, if there are fewer than 2 ^ 32 nodes. The pointer to the
-- free nodes is as before where there are any; else it is the pointer that the node had.
pub free_node-get_node :
    (p new_node user_data : Ptr) (l : SinglyList)
    → p ≢ null
    → l.live p ≡ true
    → 0 < l.node_use_count
    → l.node_use_count < u32
    → l.free_list_count + 1 < u32
    → Returns
        (λ r.
          Returns
            (λ r'.
              (r'.1 ≡ p)
              × (r'.0.node_data p ≡ user_data)
              × (r'.0.next p ≡ null)
              × (r'.0.free_list ≡ (if ltb 0 l.free_list_count then l.free_list else l.next p))
              × (r'.0.free_list_count ≡ l.free_list_count)
              × (r'.0.node_use_count ≡ l.node_use_count))
            (get_node new_node user_data r.0))
        (free_node p l)
unfolding free_node get_node fill_node get_next set_next
free_node-get_node p new_node user_data l some_node there used few small =
    let node : (p == null) ≡ false = ground (arith, some_node) in
    let uses : (l.node_use_count == 0) ≡ false = ground (arith, used) in
    let frees : ltb 0 ((l.free_list_count + 1) % u32) ≡ true = ground (arith, small) in
    let back : (l.free_list_count + 1) % u32 - 1 ≡ l.free_list_count = omega (arith, small) in
    let again : (l.node_use_count - 1 + 1) % u32 ≡ l.node_use_count = omega (arith, used, few) in
    elim (Bool-cases (ltb 0 l.free_list_count)) [
      | inl some_free ↦
          rw (node, uses, there, some_free)
            (returns (
              rw (frees, there)
                (returns (
                  refl,
                  rw (==-refl p) refl,
                  rw (==-refl p) refl,
                  rw (==-refl p) refl,
                  back,
                  again,
                ))))
      | inr none_free ↦
          rw (node, uses, there, none_free)
            (returns (
              rw (frees, there)
                (returns (refl, rw (==-refl p) refl, rw (==-refl p) refl, refl, back, again))))
    ]
