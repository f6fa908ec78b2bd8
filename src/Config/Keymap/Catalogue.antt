-- ===== src/Config/Keymap/Catalogue.antt =====
-- The built-in catalogue: keybindingDefs of internal/config/keymap.go, without the descriptions.
use shfm.Common.{List, [], ◌∷◌, Bytes, codes}

abbrev pub Action : Type 0
Action = Bytes

abbrev pub keybinding_defs : List (Action × List Bytes)
keybinding_defs =
    (codes "quit", codes "q" ∷ codes "ctrl+q" ∷ [])
    ∷ (codes "help", codes "ctrl+alt+h" ∷ codes "?" ∷ [])
    ∷ (codes "about", codes "ctrl+alt+a" ∷ [])
    ∷ (codes "toggle-layout", codes "ctrl+l" ∷ [])
    ∷ (codes "toggle-hidden", codes "ctrl+h" ∷ codes "." ∷ [])
    ∷ (codes "toggle-icons", codes "ctrl+alt+n" ∷ [])
    ∷ (codes "toggle-share-clipboard", codes "ctrl+alt+c" ∷ [])
    ∷ (codes "task-list", codes "ctrl+b" ∷ [])
    ∷ (codes "cursor-up", codes "ctrl+up" ∷ codes "up" ∷ codes "k" ∷ [])
    ∷ (codes "cursor-down", codes "ctrl+down" ∷ codes "down" ∷ codes "j" ∷ [])
    ∷ (codes "pane-left", codes "left" ∷ [])
    ∷ (codes "pane-right", codes "right" ∷ [])
    ∷ (codes "switch-pane", codes "tab" ∷ [])
    ∷ (codes "page-up", codes "pgup" ∷ [])
    ∷ (codes "page-down", codes "pgdown" ∷ [])
    ∷ (codes "go-top", codes "home" ∷ codes "g" ∷ [])
    ∷ (codes "go-bottom", codes "end" ∷ codes "G" ∷ [])
    ∷ (codes "activate", codes "enter" ∷ [])
    ∷ (codes "go-up", codes "backspace" ∷ codes "h" ∷ [])
    ∷ (codes "toggle-select", codes "space" ∷ [])
    ∷ (codes "select-all", codes "a" ∷ [])
    ∷ (codes "deselect-all", codes "A" ∷ [])
    ∷ (codes "copy", codes "ctrl+c" ∷ [])
    ∷ (codes "paste", codes "ctrl+v" ∷ [])
    ∷ (codes "paste-move", codes "ctrl+alt+v" ∷ [])
    ∷ (codes "trash", codes "ctrl+d" ∷ [])
    ∷ (codes "delete", codes "ctrl+alt+d" ∷ [])
    ∷ (codes "mirror", codes "ctrl+alt+m" ∷ [])
    ∷ (codes "rename", codes "r" ∷ [])
    ∷ (codes "new-folder", codes "m" ∷ [])
    ∷ (codes "new-file", codes "f" ∷ [])
    ∷ (codes "properties", codes "i" ∷ [])
    ∷ (codes "extract", codes "x" ∷ [])
    ∷ (codes "compress", codes "c" ∷ [])
    ∷ (codes "write-image", codes "w" ∷ [])
    ∷ (codes "file-associations", codes "o" ∷ [])
    ∷ (codes "search", codes "/" ∷ [])
    ∷ (codes "semantic-search", codes "ctrl+f" ∷ [])
    ∷ (codes "cancel", codes "esc" ∷ [])
    ∷ (codes "source-menu", codes "ctrl+s" ∷ [])
    ∷ (codes "edit-path", codes "ctrl+p" ∷ [])
    ∷ (codes "lock-vaults", codes "ctrl+alt+l" ∷ [])
    ∷ (codes "localsend", codes "ctrl+alt+s" ∷ [])
    ∷ (codes "toggle-trash-view", codes "T" ∷ [])
    ∷ (codes "restore-or-refresh", codes "R" ∷ [])
    ∷ (codes "empty-trash", codes "e" ∷ [])
    ∷ (codes "pick-accept", codes "ctrl+o" ∷ [])
    ∷ (codes "pick-filter", codes "ctrl+t" ∷ [])
    ∷ (codes "pick-options", codes "ctrl+e" ∷ [])
    ∷ []
