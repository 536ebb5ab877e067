-- ===== src/SinglyList/Unlink.antt =====
-- Unlink of List/SinglyList.hpp and that of TMPSinglyList.hpp, which set the ends of a list with one node in
-- different ways.
use mathlib.Core.Path.{fun_ext}
use winsock_multi_thread_ser.Base.{
  ℕ, zero, suc, ◌+◌, ◌<◌, ◌≡◌, refl, ap, ◌∙◌, inl, inr, true, Bool-cases, List, [], ◌∷◌, arith,
  ◌==◌, ==-eq, Option, none, some, Ptr, null, count, last_or, length, Chain, ◌>>=◌,
}
use winsock_multi_thread_ser.TmpSinglyList
use winsock_multi_thread_ser.TmpSinglyList.{get_next}
use winsock_multi_thread_ser.SinglyList.{SinglyList, find, cut, detach, unlink}

find-eq :
    (k : ℕ) (target prev_node node : Ptr) (l : SinglyList)
    → find k target prev_node node l ≡ TmpSinglyList.find k target prev_node node l
unfolding find TmpSinglyList.find get_next
find-eq zero target prev_node node l = refl
find-eq (suc k) target prev_node node l = elim (Bool-cases (node == null)) [
  | inl nobody ↦ rw nobody refl
  | inr some_node ↦ elim (Bool-cases (node == target)) [
    | inl hit ↦ rw (some_node, hit) refl
    | inr miss ↦ elim (Bool-cases (l.live node)) [
      | inl there ↦ rw (some_node, miss, there) (find-eq k target node (l.next node) l)
      | inr gone ↦ rw (some_node, miss, gone) refl
    ]
  ]
]

-- Behind the last node of a chain there is none.
Chain-last :
    (next : Ptr → Ptr) (p x : Ptr) (xs : List Ptr)
    → Chain next p (x ∷ xs)
    → next (last_or x xs) ≡ null
Chain-last next p x [] c = c.1
Chain-last next p x (y ∷ xs) c = Chain-last next (next x) y xs c.1

cut-eq :
    (prev_node target : Ptr) (l : SinglyList)
    → l.live l.head_node ≡ true
    → (l.head_node ≡ l.tail_node → l.next l.head_node ≡ null)
    → cut prev_node target l ≡ TmpSinglyList.cut prev_node target l
unfolding cut TmpSinglyList.cut get_next
cut-eq prev_node target l there last = elim (Bool-cases (prev_node == null)) [
  | inl first ↦ elim (Bool-cases (l.head_node == l.tail_node)) [
    | inl only ↦ rw (first, only, there, last (==-eq l.head_node l.tail_node only)) refl
    | inr more ↦ rw (first, more) refl
  ]
  | inr behind ↦ rw behind refl
]

detach-eq :
    (target : Ptr) (l : SinglyList) (found : Option Ptr)
    → l.live l.head_node ≡ true
    → (l.head_node ≡ l.tail_node → l.next l.head_node ≡ null)
    → detach target l found ≡ TmpSinglyList.detach target l found
unfolding detach TmpSinglyList.detach
detach-eq target l none there last = refl
detach-eq target l (some prev_node) there last = rw (cut-eq prev_node target l there last) refl

-- `Unlink` does what `Unlink` of TMPSinglyList.hpp does, for any node, in the list or not, on a list
-- whose nodes exist, whose tail is the last node of the chain from its head, and which counts them: it
-- sets both ends to NULL where the other one takes `pNext` of the only node.
pub unlink-eq :
    (l : SinglyList) (target : Ptr) (xs : List Ptr)
    → Chain l.next l.head_node xs
    → l.tail_node ≡ last_or null xs
    → l.node_link_count ≡ length xs
    → ((a : Ptr) → 0 < count a xs → l.live a ≡ true)
    → unlink target l ≡ TmpSinglyList.unlink target l
unfolding unlink TmpSinglyList.unlink
unlink-eq l target [] chain tail links live = elim (Bool-cases (target == null)) [
  | inl nobody ↦ rw nobody refl
  | inr some_node ↦ rw (some_node, links, chain) refl
]
unlink-eq l target (x ∷ xs) chain tail links live = elim (Bool-cases (target == null)) [
  | inl nobody ↦ rw nobody refl
  | inr some_node ↦
      let there : l.live l.head_node ≡ true = rw chain.0 (live x (ground arith)) in
      let last : l.head_node ≡ l.tail_node → l.next l.head_node ≡ null =
        λ e. ap l.next (e ∙ tail) ∙ Chain-last l.next l.head_node x xs chain in
      rw (some_node, find-eq (l.node_link_count + 1) target null l.head_node l)
        (ap (λ f. TmpSinglyList.find (l.node_link_count + 1) target null l.head_node l >>= f)
          (fun_ext (λ found. detach-eq target l found there last)))
]
