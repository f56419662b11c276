-- ===== src/Nav/Tree.antt =====
-- The arguments of a command, and the target of an undo in the session's tree.
use pi_pilot.Base.{String, Bool, false, ◌&&◌, Option, none, some, List, [], ◌∷◌, if◌then◌else◌}
use pi_pilot.Base.Json.{Json, is_text, as_text, is_empty}
use pi_pilot.Base.Text.{trim, is_space}

-- What is read of a node's entry: its id, its type, and the role of its message.
pub record Entry : Type 0 where
  pub id : Option Json
  pub type : Option Json
  pub role : Option Json

-- Nodes in a row: the first node's entry, its children, and the nodes after it. Children that are
-- no array are `no_nodes`.
pub data Nodes : Type 0 where
  no_nodes : Nodes
  node : Option Entry → Nodes → Nodes → Nodes

-- The first token of a trimmed text
abbrev pub first_token : String → String
first_token String.[] = String.[]
first_token (String.◌∷◌ c s) =
    let rest = first_token s in if is_space c then String.[] else String.◌∷◌ c rest

-- `parseNavArgs`
unfoldable pub parse_nav_args : String → Option String
parse_nav_args arguments =
    if is_empty (trim arguments) then none else some (first_token (trim arguments))

abbrev pub is_entry : String → Option Entry → Bool
is_entry leaf none = false
is_entry leaf (some e) = is_text leaf e.id

-- `pathToLeaf`; of the nodes on the path only the entries are used.
unfoldable pub path_to_leaf : String → Nodes → Option (List (Option Entry))
path_to_leaf leaf no_nodes = none
path_to_leaf leaf (node e children others) =
    let below = path_to_leaf leaf children in
    let beside = path_to_leaf leaf others in
    if is_entry leaf e
    then some (e ∷ [])
    else elim below [ some path ↦ some (e ∷ path) | none ↦ beside ]

-- The id of an entry that is a user's message
abbrev pub user_message : Option Entry → Option String
user_message none = none
user_message (some e) =
    if is_text "message" e.type && is_text "user" e.role then as_text e.id else none

-- The loop over the path, from its end
abbrev pub last_user_message : List (Option Entry) → Option String
last_user_message [] = none
last_user_message (e ∷ es) =
    let later = last_user_message es in elim later [ some id ↦ some id | none ↦ user_message e ]

abbrev pub target_on : Option (List (Option Entry)) → Option String
target_on none = none
target_on (some path) = last_user_message path

-- `undoTargetId` where there is a tree; a leaf's id that is empty is as none.
unfoldable pub undo_target_id : Nodes → Option String → Option String
undo_target_id tree none = none
undo_target_id tree (some leaf) = if is_empty leaf then none else target_on (path_to_leaf leaf tree)
