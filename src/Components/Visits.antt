-- ===== src/Components/Visits.antt =====
-- How often the components of a tree are called.
use winsock_multi_thread_ser.Base.{
  ℕ, ◌+◌, ◌≡◌, refl, Bool, true, false, List, [], ◌∷◌, ◌++◌, arith, if◌then◌else◌, inl, inr,
  Bool-cases, ◌==◌, Ptr,
}
use winsock_multi_thread_ser.Components.{
  Event, on_create, on_release, on_update, on_late_update, on_show, Component, Nodes, end, node,
  has_nodes, g_recursive, ComponentFramework, calls, mouse_calls, v_on, main_event_run, v_run,
}
use winsock_multi_thread_ser.Components.Search.{preorder}

-- The functions of all components do without that of `IComponent`, or all call it.
abbrev pub AllPass : Bool → Nodes → Type 0
AllPass b end = Unit {0}
AllPass b (node k c children next) =
    ((e : Event) → c.passes_on e ≡ b) × AllPass b children × AllPass b next

-- The loop behind a node without nodes below it.
has_nodes-below :
    (e : Event) (ns : Nodes) → (if has_nodes ns then g_recursive e ns else []) ≡ g_recursive e ns
unfolding has_nodes g_recursive
has_nodes-below e end = refl
has_nodes-below e (node k c children next) = refl

-- Where no function calls that of `IComponent`, an event reaches each component once, in preorder.
g_recursive-preorder : (e : Event) (ns : Nodes) → AllPass false ns → g_recursive e ns ≡ preorder ns
unfolding g_recursive
g_recursive-preorder e end a = refl
g_recursive-preorder e (node k c children next) a =
    rw
      (
        a.0 e,
        has_nodes-below e children,
        g_recursive-preorder e children a.1,
        g_recursive-preorder e next a.2,
      )
      refl

-- One run of the framework, with both flags set, over components whose functions do without that of
-- `IComponent`: each component is created, updated, updated late, shown and released once, each of
-- these for the whole tree in preorder before the next, and the mouse comes between the updates.
pub v_run-preorder :
    (f : ComponentFramework)
    → f.update_flag ≡ true
    → f.show_flag ≡ true
    → AllPass false f.component_list
    → let all = preorder f.component_list in
      v_run f
      ≡ calls on_create all
        ++ (((calls on_update all ++ (mouse_calls f.mouse_state_type ++ calls on_late_update all))
              ++ calls on_show all)
            ++ calls on_release all)
unfolding v_run main_event_run v_on
v_run-preorder f updates shows a =
    let visits : (e : Event) → g_recursive e f.component_list ≡ preorder f.component_list =
      λ e. g_recursive-preorder e f.component_list a in
    rw
      (
        updates,
        shows,
        visits on_create,
        visits on_update,
        visits on_late_update,
        visits on_show,
        visits on_release,
      )
      refl

-- How often the component at an address is called.
abbrev pub calls_of : Ptr → List Component → ℕ
calls_of a [] = 0
calls_of a (c ∷ cs) = (if c.address == a then 1 else 0) + calls_of a cs

calls_of-append :
    (a : Ptr) (xs ys : List Component) → calls_of a (xs ++ ys) ≡ calls_of a xs + calls_of a ys
calls_of-append a [] ys = omega arith
calls_of-append a (c ∷ xs) ys = omega (arith, calls_of-append a xs ys)

-- `n` where the component is in the list, twice as much where it is on the next level, and so on.
abbrev pub doubled : Ptr → ℕ → Nodes → ℕ
doubled a n end = 0
doubled a n (node k c children next) =
    (if c.address == a then n else 0) + (doubled a (n + n) children + doubled a n next)

doubled-add :
    (a : Ptr) (m n : ℕ) (ns : Nodes) → doubled a (m + n) ns ≡ doubled a m ns + doubled a n ns
doubled-add a m n end = refl
doubled-add a m n (node k c children next) =
    let swap : (m + n) + (m + n) ≡ (m + m) + (n + n) = omega arith in
    let below = doubled-add a (m + m) (n + n) children in
    let behind = doubled-add a m n next in
    rw swap (elim (Bool-cases (c.address == a)) [
      | inl here ↦ rw here (omega (arith, below, behind))
      | inr other ↦ rw other (omega (arith, below, behind))
    ])

-- Where each function calls that of `IComponent`, as the inherited one does, the function and the loop
-- both go down: one event calls a component of the list once, one of the next level twice, one of
-- the third level four times, and so on.
pub g_recursive-doubled :
    (e : Event) (a : Ptr) (ns : Nodes)
    → AllPass true ns
    → calls_of a (g_recursive e ns) ≡ doubled a 1 ns
unfolding g_recursive
g_recursive-doubled e a end all = refl
g_recursive-doubled e a (node k c children next) all =
    let below = g_recursive e children in
    let rest = g_recursive e next in
    rw (all.0 e, has_nodes-below e children)
      (omega (
        arith,
        calls_of-append a below (below ++ rest),
        calls_of-append a below rest,
        g_recursive-doubled e a children all.1,
        g_recursive-doubled e a next all.2,
        doubled-add a 1 1 children,
      ))
