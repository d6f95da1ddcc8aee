-- ===== src/Peers/Boards.antt =====
-- The index from boards to peers of peers.py: what its calls do to a `dict[str, set[str]]`.
use retiboard.Base.{text_key, ◌==◌, if◌then◌else◌, String, List, [], ◌∷◌, length, none, some}
use retiboard.Base.Dict.{Dict, lookup, insert, erase}
use retiboard.Base.Sets.{add, discard}

-- `members` of a board, the empty set if it has no entry.
abbrev pub members : Dict String (List String) → String → List String
members index board_id = elim (lookup board_id index) [ none ↦ [] | some set ↦ set ]

-- `index.setdefault(board_id, set()).add(hash)`
unfoldable pub index_add : String → String → Dict String (List String) → Dict String (List String)
index_add hash board_id index = insert board_id (add hash (members index board_id)) index

-- `index.get(board_id, set()).discard(hash)`
unfoldable pub index_discard :
    String → String → Dict String (List String) → Dict String (List String)
index_discard hash board_id index = elim (lookup board_id index) [
  | none ↦ index
  | some set ↦ insert board_id (discard hash set) index
]

unfoldable pub index_discard_all :
    String → List String → Dict String (List String) → Dict String (List String)
unfolding index_discard
index_discard_all hash [] index = index
index_discard_all hash (board_id ∷ boards) index =
    index_discard_all hash boards (index_discard hash board_id index)

-- A board that loses its last member loses its entry.
unfoldable pub index_remove :
    String → String → Dict String (List String) → Dict String (List String)
index_remove hash board_id index = elim (lookup board_id index) [
  | none ↦ index
  | some set ↦
      if length (discard hash set) == 0
      then erase board_id index
      else insert board_id (discard hash set) index
]

unfoldable pub index_remove_all :
    String → List String → Dict String (List String) → Dict String (List String)
unfolding index_remove
index_remove_all hash [] index = index
index_remove_all hash (board_id ∷ boards) index =
    index_remove_all hash boards (index_remove hash board_id index)
