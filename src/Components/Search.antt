-- ===== src/Components/Search.antt =====
-- Searches in the tree of components.
use winsock_multi_thread_ser.Base.{
  ℕ, ◌≡◌, refl, sym, ap, ◌∙◌, inl, inr, false, Option, none, some, List, [], ◌∷◌, ◌++◌, arith, ◌==◌,
  ==-refl, if◌then◌else◌, Bool-cases,
}
use winsock_multi_thread_ser.Components.{
  Component, Nodes, end, node, link_node, add_component, del_component, first_of, search_component,
}

-- The components of a tree, each before those of its own list.
abbrev pub preorder : Nodes → List Component
preorder end = []
preorder (node k c children next) = c ∷ (preorder children ++ preorder next)

-- The first one with an ID.
abbrev pub find_id : ℕ → List Component → Option Component
find_id id [] = none
find_id id (c ∷ cs) = if c.id == id then some c else find_id id cs

find_id-append :
    (id : ℕ) (xs ys : List Component)
    → find_id id (xs ++ ys) ≡ first_of (find_id id xs) (find_id id ys)
unfolding first_of
find_id-append id [] ys = refl
find_id-append id (c ∷ xs) ys = elim (Bool-cases (c.id == id)) [
  | inl hit ↦ rw hit refl
  | inr miss ↦ rw miss (find_id-append id xs ys)
]

-- The recursive search finds the first component with the ID in preorder, and none exactly where
-- there is none.
pub search_component-preorder :
    (id : ℕ) (ns : Nodes) → search_component id ns ≡ find_id id (preorder ns)
unfolding search_component
search_component-preorder id end = refl
search_component-preorder id (node k c children next) = elim (Bool-cases (c.id == id)) [
  | inl hit ↦ rw hit refl
  | inr miss ↦
      rw (miss, search_component-preorder id children, search_component-preorder id next)
        (sym (find_id-append id (preorder children) (preorder next)))
]

-- The numbers of the nodes in a list are the IDs of their components.
abbrev pub Tagged : Nodes → Type 0
Tagged end = Unit {0}
Tagged (node k c children next) = (k ≡ c.id) × Tagged next

first_of-none : (a b : Option Component) → first_of a b ≡ none → (a ≡ none) × (b ≡ none)
unfolding first_of
first_of-none none b e = (refl, e)
first_of-none (some c) b e = ground (arith, e)

search_component-link :
    (id : ℕ) (ns new : Nodes)
    → search_component id ns ≡ none
    → search_component id (link_node ns new) ≡ search_component id new
unfolding search_component link_node first_of
search_component-link id end new e = refl
search_component-link id (node k c children next) new e = elim (Bool-cases (c.id == id)) [
  | inl hit ↦ ground (arith, e, hit)
  | inr miss ↦
      let parts =
        first_of-none (search_component id children) (search_component id next) (rw miss at e) in
      rw (miss, parts.0) (search_component-link id next new parts.1)
]

link_node-Tagged : (ns new : Nodes) → Tagged ns → Tagged new → Tagged (link_node ns new)
unfolding link_node
link_node-Tagged end new t u = u
link_node-Tagged (node k c children next) new t u = (t.0, link_node-Tagged next new t.1 u)

-- A node with the ID behind nodes with other ones.
del_component-last :
    (id : ℕ) (ns : Nodes) (c : Component) (children : Nodes)
    → Tagged ns
    → search_component id ns ≡ none
    → del_component id (link_node ns (node id c children end)) ≡ ns
unfolding del_component link_node search_component
del_component-last id end c children t e = rw (==-refl id) refl
del_component-last id (node k d below next) c children t e = elim (Bool-cases (d.id == id)) [
  | inl hit ↦ absurd (ground (arith, e, hit))
  | inr miss ↦
      let parts =
        first_of-none (search_component id below) (search_component id next) (rw miss at e) in
      let other : (k == id) ≡ false = ap (λ x. x == id) t.0 ∙ miss in
      rw other (ap (node k d below) (del_component-last id next c children t.1 parts.1))
]

-- A component that is added under an ID that no component has: a search for the ID finds it, the
-- numbers of the nodes are still the IDs, and deleting it gives back the tree as it was.
pub del_component-add_component :
    (c : Component) (children : Nodes) (id : ℕ) (ns : Nodes)
    → Tagged ns
    → search_component id ns ≡ none
    → (search_component id (add_component c children id ns) ≡ some (record c { id = id }))
      × Tagged (add_component c children id ns)
      × (del_component id (add_component c children id ns) ≡ ns)
unfolding add_component search_component
del_component-add_component c children id ns t e =
    let added = node id (record c { id = id }) children end in
    let last : search_component id added ≡ some (record c { id = id }) = rw (==-refl id) refl in
    (
      search_component-link id ns added e ∙ last,
      link_node-Tagged ns added t (refl, tt),
      del_component-last id ns (record c { id = id }) children t e,
    )
