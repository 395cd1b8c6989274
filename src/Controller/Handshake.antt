-- ===== src/Controller/Handshake.antt =====
-- cmd/controller/main.go and edge_windows.go: from the flags to the start of the edge loop.
use text.Mathlib.Text.{◌==◌ as str_eq}
use ea_share.Base.{
  ℕ, String, Bool, true, false, not, ◌&&◌, ◌||◌, Option, none, some, [], Bytes, ℤ, pos, leb_ℤ,
  if◌then◌else◌,
}
use ea_share.Float.{Float}
use ea_share.Stream.{Error, ok, err, Writer}
use ea_share.Protocol.{Edge, Message, message, MsgType, Json, write_message, read_message}
use ea_share.Controller.EdgeLoop.{UdpClient}

-- What `main` makes of `-connect`, `-token`, `-edge` and `-udp-mouse`; `proceed none` is no edge.
pub data Flags : Type 0 where
  proceed : Option Edge → Flags
  connect_required token_required edge_required bad_edge : Flags

unfoldable pub parse_edge : String → Flags
parse_edge e =
    if str_eq e ""
    then proceed none
    else if str_eq e "left"
    then proceed (some Edge.left)
    else if str_eq e "right"
    then proceed (some Edge.right)
    else if str_eq e "top"
    then proceed (some Edge.top)
    else if str_eq e "bottom"
    then proceed (some Edge.bottom)
    else bad_edge

unfoldable pub check_flags : String → String → String → Bool → Flags
check_flags addr token edge udp_mouse =
    if str_eq addr ""
    then connect_required
    else if str_eq token ""
    then token_required
    else if udp_mouse && str_eq edge ""
    then edge_required
    else parse_edge edge

-- How the authentication ends: with what the reader still holds, or fatally.
pub data Authentication : Type 0 where
  authenticated : Bytes → Authentication
  rejected : Authentication
  failed : Error → Authentication

-- What the UDP channel needs: `base64.StdEncoding.DecodeString`, and the packets that a socket takes once
-- it is dialled (`none` when dialling fails).
pub record Network : Type 0 where
  pub decode_base64 : Bytes → Option Bytes
  pub socket : Option ℕ

-- How the start of `runEdgeAware` ends: the size of the target's screen and the UDP channel, if any.
pub data Start : Type 0 where
  started : ℤ → ℤ → Option UdpClient → Start
  no_screen_info : Error → Start
  unexpected : MsgType → Start
  invalid_size : ℤ → ℤ → Start

abbrev is_auth_ok : MsgType → Bool
is_auth_ok MsgType.auth_ok = true
is_auth_ok _ = false

abbrev is_screen_info : MsgType → Bool
is_screen_info MsgType.screen_info = true
is_screen_info _ = false

abbrev is_udp_key : MsgType → Bool
is_udp_key MsgType.udp_key = true
is_udp_key _ = false

module _ (fl : Float) (json : Json fl) where
  abbrev pub auth_message : Bytes → Bool → Message fl
  auth_message token udp_mouse = record (message fl MsgType.auth) {
    token = token;
    udp_mouse = udp_mouse;
  }

  unfoldable pub read_auth : Bytes → Authentication
  read_auth r = elim (read_message fl json r) [
    | err x ↦ failed x
    | ok (m, rest) ↦ if is_auth_ok m.type then authenticated rest else rejected
  ]

  -- The authentication of `main`, on the replies `r`.
  unfoldable pub authenticate : Bytes → Bool → Writer → Bytes → Writer × Authentication
  authenticate token udp_mouse w r =
      let (w', e) = write_message fl json w (auth_message token udp_mouse) in
      elim e [ some x ↦ (w', failed x) | none ↦ (w', read_auth r) ]

  -- `dialUDPMouse`, past the address.
  dial_udp_mouse : Network → Bytes → Option UdpClient
  dial_udp_mouse n key = elim n.socket [
    | none ↦ none
    | some room ↦ some (record { key = key; seq = 0; packets = []; room = room })
  ]

  unfoldable pub negotiate_udp_mouse : Network → Bytes → Option UdpClient
  unfolding dial_udp_mouse
  negotiate_udp_mouse n r = elim (read_message fl json r) [
    | err x ↦ none
    | ok (m, rest) ↦
        if not (is_udp_key m.type)
        then none
        else elim (n.decode_base64 m.udp_key) [ none ↦ none | some key ↦ dial_udp_mouse n key ]
  ]

  sized : Network → Bool → ℤ → ℤ → Bytes → Start
  unfolding negotiate_udp_mouse
  sized n udp_mouse w h rest =
      if leb_ℤ w (pos 0) || leb_ℤ h (pos 0)
      then invalid_size w h
      else started w h (if udp_mouse then negotiate_udp_mouse n rest else none)

  -- `runEdgeAware` up to the start of the capture.
  unfoldable pub start_edge : Network → Bool → Bytes → Start
  unfolding sized
  start_edge n udp_mouse r = elim (read_message fl json r) [
    | err x ↦ no_screen_info x
    | ok (m, rest) ↦
        if not (is_screen_info m.type)
        then unexpected m.type
        else sized n udp_mouse m.width m.height rest
  ]
