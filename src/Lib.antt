-- ===== src/Lib.antt =====
-- ea-share shares a keyboard and a mouse between machines. A controller captures input
-- (internal/capture) and, while its cursor has left its own screen through a chosen edge, sends it over
-- TLS to a target (cmd/target), which injects it (internal/inject). Mouse positions may also go over a
-- UDP channel, and the clipboard over a connection of its own. The tray (cmd/tray) keeps the profiles
-- and starts the two programs.
--
-- The parts, and the files that model them:
--   Base, Stream, Float: lists, integers and w-bit words over native numbers; Go's io.ReadFull and a
--     connection whose writes fail after a number of bytes; float64, an argument with named laws.
--   Protocol (internal/protocol/protocol.go): the messages and their frames. WriteMessage and
--     ReadMessage are write_message and read_message; encoding/json is an argument.
--   Mousesync (internal/mousesync/mousesync.go): EncodePacket and DecodePacket are encode_packet and
--     decode_packet; HMAC-SHA256 is an argument whose tags have 32 bytes.
--   Clipsync (internal/clipsync/clipsync.go): WriteFrame and ReadFrame are write_frame and read_frame.
--   Addr (internal/clipsync, internal/mousesync): ClipAddr and MouseAddr in Go's 64-bit int. Package
--     net and strconv are arguments, which read back what they wrote.
--   Clipboard (internal/clipboard/clipboard.go): ReadText, WriteText, ReadImagePNG and WriteImagePNG over
--     the record Board: how long the clipboard is busy, which calls fail, and what it holds. Clipboard.Dib
--     has the bitmaps, byte by byte; UTF-16 and PNG coding are arguments.
--   Keys (internal/keys): the names, the two code tables, and the reverse maps that init builds, for
--     any order in which Go ranges over a map.
--   Screen, Capture (internal/capture): the events and their channel; the hook procedures of
--     capture_windows.go as functions from a source to a source and whether the input is suppressed;
--     readLoop of capture_linux.go as steps over the events of a device's bytes; Capture.Linux.Devices
--     chooses the devices, with the regular expressions as arguments. Capture.Windows.Run is the thread of
--     Start from its window to the end of its message loop, for each outcome of its system calls;
--     Capture.Linux.Readers has the loops of all devices with Stop, as steps in any order.
--   Inject (internal/inject): the INPUT structure, or the uinput call, for each event; Inject.Feedback
--     joins the injector's devices to the capture on the same machine.
--   Controller.EdgeMath (cmd/controller/edge_math.go): the geometry, in int32s that wrap around.
--   Controller.EdgeLoop (cmd/controller/edge_windows.go): the loop of runEdgeAware. Its variables, its
--     connection and the calls it makes are the record Loop; handle is one round, run the loop. EdgeLink
--     joins it to the source: hook calls and rounds of the loop in any order, as a step relation;
--     EdgeServeLink joins it to the loop of the target, without a UDP channel.
--   Controller.Handshake (cmd/controller/main.go, edge_windows.go): the checks of the flags, the
--     authentication, and runEdgeAware up to its loop. HandshakeLink joins it to the target.
--   Controller.Legacy (cmd/controller/main.go): toMessage and the loop of runLegacy. SessionLink joins
--     it to the loop of the target.
--   Controller.Trust (cmd/controller/main.go, internal/tlsutil/tlsutil.go): the decision of
--     dialAndVerify and of pinnedTLSConfig, and the trust store with its file. A write that fails leaves
--     the file as it was.
--   Controller.Main (cmd/controller/main.go): main from the values of the flags to its end, with dialAndVerify
--     and the clipboard's connection. What answers at an address is the record Peer, what else main meets
--     the record Surroundings. MainLink joins a whole run to the target, and
--     MainEdgeLink one with an edge and no UDP channel.
--   Identity (internal/tlsutil/tlsutil.go): LoadOrGenerateCert with its two files, and Fingerprint; the
--     crypto packages are an argument. IdentityLink joins it to the trust store over restarts of both sides.
--   Controller.Clip, Target.Clip (cmd/controller/clipboard_windows.go, cmd/target/clipboard_windows.go):
--     the two sides of the clipboard connection, with the key presses of a paste. ClipLink joins them.
--   Target.Accept (cmd/target/main.go): the loop that accepts connections and the goroutines it starts,
--     as steps in any order. Target.Main is main from the values of the flags to the accept loops of the main
--     and the clipboard's channel, and then both loops.
--   Target.Dispatch, Target.Conn (cmd/target/main.go): dispatch and handleConn, from the first message
--     to the end of the connection, with the calls of the injector as a list.
--   Target.Token (cmd/target/main.go): the token that main makes up where none is given, and how it is
--     printed. TokenLink joins it to the tray, which reads it.
--   Target.Udp (cmd/target/main.go): the UDP session and its reader loop, over the datagrams that
--     arrive, in any order and number. MouseLink joins it to the controller's side.
--   Tray.Profiles, Tray.Store (cmd/tray/config.go, profile_editor_windows.go, menu.go): the profiles, their
--     validation, their file and the language.
--   Tray.Messages, Tray.Menu (cmd/tray/i18n.go, menu.go): the texts in both languages, and the menu that
--     rebuild draws, as data.
--   Tray.Processes, Tray.Token (cmd/tray/menu.go, process.go): starting, stopping and toggling the two
--     processes, the lines they print and their exits. The record App has the tray's two slots and the set
--     of live processes; Tray.Processes.Runs has the parts of a start, output,
--     exits and their reports as steps in any order.
--   Tray.Editor (cmd/tray/profile_editor_windows.go): both pages, over one form record; selecting, adding,
--     removing, saving, saving with a restart. The list box may raise any events during a refresh.
--   Tray.Binaries (cmd/tray/process.go): the names and the paths of the binaries that the tray starts.
--   Tray.Icon (cmd/tray/icon.go): the three rectangles of the icon, point by point, and its container; the PNG
--     encoder is an argument.
--   Examples: the arguments at concrete values, and the theorems at concrete inputs.
--
-- Loops: run, on_lines and serve_mouse_udp recurse on the list of events, lines or datagrams. The message
-- loop of the target, the clipboard's and readLoop take fuel, the length of their input: a message takes
-- four bytes at least, a frame five, a device event 24.
--
-- Not modelled: what the system calls of capture, injection, screen and clipboard do inside the system, and the
-- creation of processes; TLS beyond the check of the certificate; the deadlines and the mutexes (each
-- handler is one step; a start in the tray is three steps, as it releases the lock between
-- them; the warp that follows the check of a packet is one step with it); logging; reading the flags; signals; the editor's widgets;
-- the entry point of the tray; an editor after its first save, when it shares slices with the tray; the stubs for other systems.
pub mod Base
pub mod Stream
pub mod Float
pub mod Addr
pub mod Screen
pub mod Protocol
pub mod Mousesync
pub mod Clipboard
pub mod Clipsync
pub mod Keys
pub mod Identity
pub mod Capture
pub mod Inject
pub mod Controller
pub mod Target
pub mod MouseLink
pub mod EdgeLink
pub mod HandshakeLink
pub mod Tray
pub mod ClipLink
pub mod SessionLink
pub mod TokenLink
pub mod IdentityLink
pub mod MainLink
pub mod EdgeServeLink
pub mod MainEdgeLink
pub mod Examples
