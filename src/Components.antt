-- ===== src/Components.antt =====
-- IComponent.cpp and EDComponentFramework.cpp: the tree of components, and what is called on it.
pub mod Search
pub mod Visits
use winsock_multi_thread_ser.Base.{
  ℕ, zero, suc, Bool, true, false, Option, none, some, List, [], ◌∷◌, ◌++◌, ◌==◌, if◌then◌else◌,
  Ptr, null,
}

-- The virtual functions that a tree passes on to its components.
pub data Event : Type 0 where
  on_create : Event
  on_release : Event
  on_update : Event
  on_late_update : Event
  on_show : Event

-- A component without its list: where it is, `Type` and `ID`, and whether its function for an event
-- is that of `IComponent`, or calls it, instead of doing without.
pub record Component : Type 0 where
  pub address : Ptr
  pub type : ℕ
  pub id : ℕ
  pub passes_on : Event → Bool

-- The constructor, and `spRootComponent` behind it: the first component of all is the root.
unfoldable pub new_component : Ptr → (Event → Bool) → Ptr → Component × Ptr
new_component this passes_on root = (
  record { address = this; type = 0; id = 0; passes_on = passes_on },
  if root == null then this else root,
)

-- The nodes of a `ComponentList` from one on: `NULL`, or a node with its `NodeNumber`, the component
-- behind `pData`, the nodes of its own list, and the nodes behind `pNext`.
pub data Nodes : Type 0 where
  end : Nodes
  node : ℕ → Component → Nodes → Nodes → Nodes

-- `DoublyList::Link`.
unfoldable pub link_node : Nodes → Nodes → Nodes
link_node end new_node = new_node
link_node (node k c children next) new_node = node k c children (link_node next new_node)

-- `AddComponent` of a component with its own list, which is in no other one.
unfoldable pub add_component : Component → Nodes → ℕ → Nodes → Nodes
unfolding link_node
add_component c children id ns = link_node ns (node id (record c { id = id }) children end)

-- `DelComponent` of a component with that `ID`: the first node with the number is unlinked.
unfoldable pub del_component : ℕ → Nodes → Nodes
del_component id end = end
del_component id (node k c children next) =
    if k == id then next else node k c children (del_component id next)

-- The result of the recursive call, or else the loop goes on.
unfoldable pub first_of : Option Component → Option Component → Option Component
first_of none later = later
first_of (some c) later = some c

-- `gRecursiveSearchNodeWithID`, and `pData` of the node. `SearchComponent` calls it on the list of the
-- root, which is not searched itself.
unfoldable pub search_component : ℕ → Nodes → Option Component
unfolding first_of
search_component id end = none
search_component id (node k c children next) =
    if c.id == id
    then some c
    else first_of (search_component id children) (search_component id next)

-- `SendMessage`: whose `vOnMessage` is called, and what is returned.
unfoldable pub deliver : Option Component → Option Component × Bool
deliver none = (none, false)
deliver (some c) = (some c, true)

unfoldable pub send_message : ℕ → Nodes → Option Component × Bool
unfolding deliver search_component
send_message dest_id ns = deliver (search_component dest_id ns)

unfoldable pub has_nodes : Nodes → Bool
has_nodes end = false
has_nodes (node k c children next) = true

-- `gRecursiveCreate`, `gRecursiveRelease`, `gRecursiveUpdate`, `gRecursiveLateUpdate` and
-- `gRecursiveShow`: the components whose function is called, in this order. The function of a
-- component that passes the event on does so for the component's list, and then the loop does.
unfoldable pub g_recursive : Event → Nodes → List Component
unfolding has_nodes
g_recursive e end = []
g_recursive e (node k c children next) =
    let below = g_recursive e children in
    let rest = g_recursive e next in
    c
    ∷ ((if c.passes_on e then below else [])
        ++ ((if has_nodes children then below else []) ++ rest))

pub data MouseStateType : Type 0 where
  no_mouse : MouseStateType
  left_down : MouseStateType
  right_down : MouseStateType
  left_down_double : MouseStateType
  left_up : MouseStateType
  right_up : MouseStateType

-- A call of a component's function, or of a mouse function of the framework, which does nothing.
pub data Call : Type 0 where
  called : Event → Component → Call
  mouse : MouseStateType → Call

-- The members that `MainEventRun` reads, and `ComponentList`.
pub record ComponentFramework : Type 0 where
  pub update_flag : Bool
  pub show_flag : Bool
  pub mouse_state_type : MouseStateType
  pub component_list : Nodes

-- The constructor of the framework.
unfoldable pub new_framework : ComponentFramework
new_framework = record {
  update_flag = true;
  show_flag = true;
  mouse_state_type = no_mouse;
  component_list = end;
}

abbrev pub calls : Event → List Component → List Call
calls e [] = []
calls e (c ∷ cs) = called e c ∷ calls e cs

-- `vOnCreate` and the other ones, which are those of `IComponent`.
unfoldable pub v_on : Event → ComponentFramework → List Call
unfolding g_recursive
v_on e f = calls e (g_recursive e f.component_list)

-- The switch.
unfoldable pub mouse_calls : MouseStateType → List Call
mouse_calls no_mouse = []
mouse_calls left_down = mouse left_down ∷ []
mouse_calls right_down = mouse right_down ∷ []
mouse_calls left_down_double = mouse left_down_double ∷ []
mouse_calls left_up = mouse left_up ∷ []
mouse_calls right_up = mouse right_up ∷ []

-- `MainEventRun`.
unfoldable pub main_event_run : ComponentFramework → List Call
unfolding v_on mouse_calls
main_event_run f =
    (if f.update_flag
      then v_on on_update f ++ (mouse_calls f.mouse_state_type ++ v_on on_late_update f)
      else [])
    ++ (if f.show_flag then v_on on_show f else [])

-- `vRun`.
unfoldable pub v_run : ComponentFramework → List Call
unfolding v_on main_event_run
v_run f = v_on on_create f ++ (main_event_run f ++ v_on on_release f)
