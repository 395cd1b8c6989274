-- ===== src/Inject/Feedback.antt =====
-- internal/inject/inject_linux.go and internal/capture/capture_linux.go on one machine: the capture does not
-- read what the injector writes.
use Prim.Native.String.{◌++◌ as text_append}
use text.Mathlib.Text.{◌==◌ as str_eq}
use ea_share.Base.{
  ◌≡◌, refl, ap, ◌⊎◌, inl, inr, String, Bool, true, false, some, List, [], ◌∷◌, ◌++◌, All, arith,
}
use ea_share.Capture.Linux.Devices.{
  Patterns, ContainsLaws, virtual_device_marker, gather, flushed, device_path, paths_of,
  start_devices, discover_input_devices, open_all,
}
use ea_share.Inject.Linux.{keyboard_name, mouse_name}

-- A line that is not empty.
abbrev pub IsText : String → Type 0
IsText s = str_eq s "" ≡ false

-- The lines of a file with these records, each with an empty line behind it.
abbrev pub file_of : List (List String) → List String
file_of [] = []
file_of (record_lines ∷ records) = record_lines ++ "" ∷ file_of records

-- The block of a record's lines, behind what is there already.
unfoldable pub block_of : String → List String → String
block_of cur [] = cur
block_of cur (line ∷ lines) = block_of (text_append (text_append cur line) "\n") lines

gather-record :
    (cur : String) (lines rest : List String)
    → All IsText lines
    → gather (lines ++ "" ∷ rest) cur ≡ flushed (block_of cur lines) (gather rest "")
unfolding gather block_of
gather-record cur [] rest h = refl
gather-record cur (line ∷ lines) rest (t, h) =
    rw t (gather-record (text_append (text_append cur line) "\n") lines rest h)

module _ (p : Patterns) where
  -- A block adds the same to the paths whatever follows.
  paths_of-flushed :
      (block : String) (before after : List String)
      → paths_of p before ≡ paths_of p after
      → paths_of p (flushed block before) ≡ paths_of p (flushed block after)
  unfolding flushed paths_of
  paths_of-flushed block before after h = ground (arith, h)

  paths_of-skipped :
      (block : String) (blocks : List String)
      → p.contains block virtual_device_marker ≡ true
      → paths_of p (flushed block blocks) ≡ paths_of p blocks
  unfolding flushed paths_of device_path
  paths_of-skipped block blocks h = ground arith

  module _ (laws : ContainsLaws p) where
    block_of-kept :
        (cur m : String) (lines : List String)
        → p.contains cur m ≡ true
        → p.contains (block_of cur lines) m ≡ true
    unfolding block_of
    block_of-kept cur m [] h = h
    block_of-kept cur m (line ∷ lines) h =
        block_of-kept (text_append (text_append cur line) "\n") m lines
          (laws.extended (text_append cur line) "\n" m (laws.extended cur line m h))

    block_of-line :
        (cur m : String) (above below : List String) (line : String)
        → p.contains line m ≡ true
        → p.contains (block_of cur (above ++ line ∷ below)) m ≡ true
    unfolding block_of
    block_of-line cur m [] below line h =
        block_of-kept (text_append (text_append cur line) "\n") m below
          (laws.extended (text_append cur line) "\n" m (laws.preceded cur line m h))
    block_of-line cur m (l ∷ above) below line h =
        block_of-line (text_append (text_append cur l) "\n") m above below line h

    -- The records of the file before and behind one that is skipped give the same paths.
    paths_of-file_of :
        (before after : List (List String)) (lines : List String)
        → All (All IsText) before
        → All IsText lines
        → p.contains (block_of "" lines) virtual_device_marker ≡ true
        → paths_of p (gather (file_of (before ++ lines ∷ after)) "")
          ≡ paths_of p (gather (file_of (before ++ after)) "")
    paths_of-file_of [] after lines b l h =
        rw (gather-record "" lines (file_of after) l)
          (paths_of-skipped (block_of "" lines) (gather (file_of after) "") h)
    paths_of-file_of (first ∷ before) after lines (t, b) l h =
        rw
          (
            gather-record "" first (file_of (before ++ lines ∷ after)) t,
            gather-record "" first (file_of (before ++ after)) t,
          )
          (paths_of-flushed (block_of "" first) (gather (file_of (before ++ lines ∷ after)) "")
            (gather (file_of (before ++ after)) "") (paths_of-file_of before after lines b l h))

    -- A line that has the name of an injector's device has the marker of the capture.
    marked :
        (left name right : String)
        → (name ≡ keyboard_name) ⊎ (name ≡ mouse_name)
        → p.contains (text_append (text_append left name) right) virtual_device_marker ≡ true
    marked left name right which =
        laws.extended (text_append left name) right virtual_device_marker
          (laws.preceded left name virtual_device_marker (named which))
      where
        named :
            (name ≡ keyboard_name) ⊎ (name ≡ mouse_name)
            → p.contains name virtual_device_marker ≡ true
        named (inl e) = rw e (
            laws.extended virtual_device_marker "-kbd" virtual_device_marker
              (laws.itself virtual_device_marker))
        named (inr e) = rw e (
            laws.extended virtual_device_marker "-mouse" virtual_device_marker
              (laws.itself virtual_device_marker))

    -- The system's file has a record with a line that has the name of one of the injector's devices: the
    -- capture opens exactly what it opens without that record. `strings.Contains` behaves as documented.
    pub start_devices_ignores_injected :
        (opens : String → Bool) (before after : List (List String)) (above below : List String)
        (left name right : String)
        → (name ≡ keyboard_name) ⊎ (name ≡ mouse_name)
        → All (All IsText) before
        → All IsText (above ++ text_append (text_append left name) right ∷ below)
        → let injected = above ++ text_append (text_append left name) right ∷ below in
          start_devices p opens (some (file_of (before ++ injected ∷ after), true))
          ≡ start_devices p opens (some (file_of (before ++ after), true))
    unfolding start_devices discover_input_devices
    start_devices_ignores_injected opens before after above below left name right which b l =
        let injected = above ++ text_append (text_append left name) right ∷ below in
        ap (λ paths. open_all opens (some paths))
          (paths_of-file_of before after injected b l (
            block_of-line "" virtual_device_marker above below
              (text_append (text_append left name) right) (marked left name right which)))
