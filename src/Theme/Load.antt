-- ===== src/Theme/Load.antt =====
-- theme.h and theme.cc: Theme::Load, from a property list to the settings. `none` is a throw. absl's
-- split, strtol and sscanf are parameters; strtol gives the 64 bits of its result and the rest.
use ced.Base.{
  ℕ, ◌==◌, leb, ◌/◌, ◌%◌, ◌^◌, if◌then◌else◌, Bool, Option, none, some, List, [], ◌∷◌, ℤ, length,
  bytes,
}
use ced.Proto.{Bytes}
use ced.Outcome.{Outcome, ok, ◌>>=◌}
use ced.Text.Annotator.{equal_bytes}
use ced.Theme.Merge.{
  Color, Highlight, no_highlight, bold, underline, italic, strike, Setting, no_setting,
}
use ced.Theme.Plist.{
  XmlNodes, Node, Nodes, Fields, no_nodes, nodes, no_fields, field, as_string, as_array, as_dict,
  get_field, parse,
}

abbrev pub or_throw {ℓ κ} : {A : Type ℓ} {B : Type κ} → Option A → (A → Option B) → Option B
or_throw none next = none
or_throw (some a) next = next a

-- `if (value[inc] == '#') inc++;`
unfoldable pub skip_hash : Bytes → Bytes
skip_hash [] = []
skip_hash (c ∷ cs) = if c == 35 then cs else c ∷ cs

abbrev pub byte_at : ℕ → ℕ → ℕ
byte_at hex shift = hex / 2 ^ shift % 256

abbrev pub rgb : ℕ → ℕ → Color
rgb hex alpha = record { r = byte_at hex 16; g = byte_at hex 8; b = byte_at hex 0; a = alpha }

-- LoadColor. What it stores for an empty value is stored over.
unfoldable pub load_color : (Bytes → ℕ × Bytes) → Bytes → Option Color
unfolding skip_hash
load_color strtol value =
    let (hex, rest) = strtol (skip_hash value) in
    if not_empty rest
    then none
    else (if leb (length value) 7
        then some (rgb hex 255)
        else some (rgb (hex / 2 ^ 8) (byte_at hex 0)))
  where
    not_empty : Bytes → Bool
    not_empty [] = Bool.false
    not_empty (_ ∷ _) = Bool.true

-- LoadHighlight.
unfoldable pub load_highlight : Bytes → Option Highlight
load_highlight value =
    if equal_bytes value (bytes "underline")
    then some underline
    else (if equal_bytes value (bytes "italic")
        then some italic
        else (if equal_bytes value (bytes "bold")
            then some bold
            else (if equal_bytes value (bytes "bold italic")
                then some italic
                else (if equal_bytes value (bytes "strike")
                    then some strike
                    else (if equal_bytes value []
                        then some no_highlight
                        else (if equal_bytes value (bytes "normal")
                            then some no_highlight
                            else none))))))

unfoldable pub find_loader {ℓ} : {F : Type ℓ} → List (Bytes × F) → Bytes → Option F
find_loader [] key = none
find_loader ((k, f) ∷ rest) key =
    let later = find_loader rest key in if equal_bytes k key then some f else later

-- The entries of `load_setting` that load a color, and those that load a highlight.
abbrev pub color_loaders : List (Bytes × (Color → Setting → Setting))
color_loaders =
    (bytes "foreground", λ c s. record s { foreground = some c })
    ∷ (bytes "background", λ c s. record s { background = some c })
    ∷ (bytes "invisibles", λ c s. record s { invisibles = some c })
    ∷ (bytes "caret", λ c s. record s { caret = some c })
    ∷ (bytes "lineHighlight", λ c s. record s { line_highlight = some c })
    ∷ (bytes "bracketContentsForeground", λ c s. record s { bracket_contents_foreground = some c })
    ∷ (bytes "bracketsForeground", λ c s. record s { brackets_foreground = some c })
    ∷ (bytes "tagsForeground", λ c s. record s { tags_foreground = some c })
    ∷ (bytes "findHighlight", λ c s. record s { find_highlight = some c })
    ∷ (bytes "findHighlightForeground", λ c s. record s { find_highlight_foreground = some c })
    ∷ (bytes "gutter", λ c s. record s { gutter = some c })
    ∷ (bytes "gutterForeground", λ c s. record s { gutter_foreground = some c })
    ∷ (bytes "selection", λ c s. record s { selection = some c })
    ∷ (bytes "selectionBorder", λ c s. record s { selection_border = some c })
    ∷ (bytes "inactiveSelection", λ c s. record s { inactive_selection = some c })
    ∷ (bytes "guide", λ c s. record s { guide = some c })
    ∷ (bytes "activeGuide", λ c s. record s { active_guide = some c })
    ∷ (bytes "stackGuide", λ c s. record s { stack_guide = some c })
    ∷ (bytes "highlight", λ c s. record s { highlight = some c })
    ∷ (bytes "highlightForeground", λ c s. record s { highlight_foreground = some c })
    ∷ (bytes "shadow", λ c s. record s { shadow = some c })
    ∷ []

abbrev pub highlight_loaders : List (Bytes × (Highlight → Setting → Setting))
highlight_loaders =
    (bytes "fontStyle", λ h s. record s { font_style = h })
    ∷ (bytes "bracketContentsOptions", λ h s. record s { bracket_contents_options = h })
    ∷ (bytes "bracketsOptions", λ h s. record s { brackets_options = h })
    ∷ (bytes "tagsOptions", λ h s. record s { tags_options = h })
    ∷ []

module _ (split : ℕ → Bytes → List Bytes) (strtol : Bytes → ℕ × Bytes)
    (scan_int : Bytes → Option ℤ) where
  -- `load_setting`, and the setting with the value.
  unfoldable pub load_setting : Bytes → Bytes → Setting → Option Setting
  unfolding find_loader load_color load_highlight
  load_setting key value s = elim (find_loader color_loaders key) [
    | some put ↦ or_throw (load_color strtol value) (λ c. some (put c s))
    | none ↦ elim (find_loader highlight_loaders key) [
      | some put ↦ or_throw (load_highlight value) (λ h. some (put h s))
      | none ↦
          if equal_bytes key (bytes "phantomCss")
          then some s
          else (if equal_bytes key (bytes "shadowWidth")
              then or_throw (scan_int value) (λ n. some (record s { shadow_width = n }))
              else none)
    ]
  ]

  -- The loop over the entries of a setting's dict.
  unfoldable pub load_fields : Fields → Setting → Option Setting
  unfolding load_setting
  load_fields no_fields s = some s
  load_fields (field key n fs) s =
      or_throw (as_string n) (λ value. or_throw (load_setting key value s) (λ t. load_fields fs t))

  -- The words of a scope, and ParseScopes.
  unfoldable pub words : List Bytes → List Bytes
  words [] = []
  words ([] ∷ ws) = words ws
  words ((c ∷ cs) ∷ ws) = (c ∷ cs) ∷ words ws

  unfoldable pub selectors : List Bytes → List (List Bytes)
  unfolding words
  selectors [] = []
  selectors (alt ∷ alts) = words (split 32 alt) ∷ selectors alts

  unfoldable pub parse_scopes : Fields → Option (List (List Bytes))
  unfolding selectors
  parse_scopes d = elim (get_field d (bytes "scope")) [
    | none ↦ some ([] ∷ [])
    | some n ↦ or_throw (as_string n) (λ str. some (selectors (split 44 str)))
  ]

  -- The body of the loop over the settings.
  unfoldable pub load_top : Node → Option Setting
  unfolding parse_scopes load_fields
  load_top top = or_throw (as_dict top) (λ top_dict. or_throw (parse_scopes top_dict) (λ scopes.
      or_throw (get_field top_dict (bytes "settings")) (λ setting.
        or_throw (as_dict setting)
          (λ setting_dict. load_fields setting_dict (record no_setting { scopes = scopes })))))

  unfoldable pub load_settings : Nodes → Option (List Setting)
  unfolding load_top
  load_settings no_nodes = some []
  load_settings (nodes n ns) =
      or_throw (load_top n) (λ s. or_throw (load_settings ns) (λ later. some (s ∷ later)))

  -- Load, on the document's `plist`.
  unfoldable pub load : Option XmlNodes → Outcome (Option (List Setting))
  unfolding load_settings
  load doc = parse doc >>= λ (root_node : Option Node). ok (
      or_throw root_node (λ root. or_throw (as_dict root) (λ d.
        or_throw (get_field d (bytes "settings"))
          (λ settings. or_throw (as_array settings) (λ ns. load_settings ns)))))
