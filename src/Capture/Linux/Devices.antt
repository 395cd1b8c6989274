-- ===== src/Capture/Linux/Devices.antt =====
-- internal/capture/capture_linux.go: `discoverInputDevices`, and the devices that `Start` opens.
use Prim.Native.String.{◌++◌ as text_append}
use text.Mathlib.Text.{◌==◌ as str_eq}
use ea_share.Base.{
  String, ◌≡◌, Bool, true, false, not, ◌&&◌, Option, none, some, List, [], ◌∷◌, if◌then◌else◌,
}

-- `strings.Contains`, the group of `handlersLineRE` in a text, the match of `eventNodeRE` (empty where there
-- is none), and `filepath.Join` behind /dev/input.
pub record Patterns : Type 0 where
  pub contains : String → String → Bool
  pub handlers_of : String → Option String
  pub event_node : String → String
  pub in_dev_input : String → String

-- `strings.Contains` finds a text in itself, and in what extends a text that has it.
pub record ContainsLaws (p : Patterns) : Type 0 where
  pub itself : (m : String) → p.contains m m ≡ true
  pub extended : (s t m : String) → p.contains s m ≡ true → p.contains (text_append s t) m ≡ true
  pub preceded : (s t m : String) → p.contains t m ≡ true → p.contains (text_append s t) m ≡ true

abbrev pub virtual_device_marker : String
virtual_device_marker = "kbs-virtual-input"

-- The blocks, with the current one added unless it is empty.
unfoldable pub flushed : String → List String → List String
flushed cur blocks = if str_eq cur "" then blocks else cur ∷ blocks

-- The loop over the lines, with the text of the current block.
unfoldable pub gather : List String → String → List String
gather [] cur = flushed cur []
gather (line ∷ lines) cur =
    let closed = gather lines "" in
    let grown = gather lines (text_append (text_append cur line) "\n") in
    if str_eq line "" then flushed cur closed else grown

opened : (String → Bool) → List String → List String
opened opens [] = []
opened opens (path ∷ paths) =
    let rest = opened opens paths in if opens path then path ∷ rest else rest

unfoldable pub open_all : (String → Bool) → Option (List String) → Option (List String)
unfolding opened
open_all opens none = none
open_all opens (some paths) = elim (opened opens paths) [
  | [] ↦ none
  | path ∷ rest ↦ some (path ∷ rest)
]

module _ (p : Patterns) where
  -- One round of the loop over the blocks: the path that it adds.
  unfoldable pub device_path : String → Option String
  device_path block =
      if p.contains block virtual_device_marker then none else elim (p.handlers_of block) [
        | none ↦ none
        | some handlers ↦
            if not (p.contains handlers "kbd") && not (p.contains handlers "mouse")
            then none
            else if str_eq (p.event_node handlers) ""
            then none
            else some (p.in_dev_input (p.event_node handlers))
      ]

  unfoldable pub paths_of : List String → List String
  paths_of [] = []
  paths_of (block ∷ blocks) = elim (device_path block) [
    | none ↦ paths_of blocks
    | some path ↦ path ∷ paths_of blocks
  ]

  -- Over the lines of the file and whether the scanner came to its end; `none` where it does not open.
  unfoldable pub discover_input_devices : Option (List String × Bool) → Option (List String)
  discover_input_devices none = none
  discover_input_devices (some (lines, false)) = none
  discover_input_devices (some (lines, true)) = some (paths_of (gather lines ""))

  -- The devices that `Start` reads from, or an error.
  unfoldable pub start_devices :
      (String → Bool) → Option (List String × Bool) → Option (List String)
  start_devices opens scanned = open_all opens (discover_input_devices scanned)
