-- ===== src/Target/Conn/Channel.antt =====
-- cmd/target/main.go: the UDP mouse channel lasts no longer than the connection that opened it.
use ea_share.Base.{
  ℕ, zero, suc, ◌≡◌, refl, ap, ◌∙◌, Bool, true, false, Option, none, some, Bytes, Bool-cases,
  Option-cases, inl, inr, length,
}
use ea_share.Float.{Float}
use ea_share.Stream.{Error, Result-cases}
use ea_share.Protocol.{Message, message, MsgType, Json, read_message}
use ea_share.Target.Udp.{start, stop}
use ea_share.Target.Dispatch.{Dispatched, call, nothing, unknown_button, unknown_type}
use ea_share.Target.Conn.{
  Setup, State, reply, enable_udp_mouse, serve_message, serve, serve_session, greet, accepts,
  refuse, welcome, handle_conn, close_udp, record_call,
}

module _ (fl : Float) (json : Json fl) (c : Setup) where
  record_call-udp : (d : Dispatched) (s : State) → (record_call fl json c d s).udp ≡ s.udp
  unfolding record_call
  record_call-udp (call i) s = refl
  record_call-udp nothing s = refl
  record_call-udp (unknown_button b) s = refl
  record_call-udp (unknown_type t) s = refl

  serve-udp : (f : ℕ) (r : Bytes) (s : State) → (serve fl json c f r s).udp ≡ s.udp
  unfolding serve serve_message
  serve-udp zero r s = refl
  serve-udp (suc f) r s = elim (Result-cases (read_message fl json r)) [
    | inl ((m, rest), e) ↦
        rw (e, serve) (serve-udp f rest (serve_message fl json c m s) ∙ record_call-udp _ _)
    | inr (x, e) ↦ rw (e, serve) refl
  ]

  enable_udp_mouse-failed :
      (s : State)
      → s.udp.key ≡ none
      → (enable_udp_mouse fl json c s).1 ≡ false
      → (enable_udp_mouse fl json c s).0.udp.key ≡ none
  unfolding enable_udp_mouse reply stop
  enable_udp_mouse-failed s h e = elim (Option-cases c.fresh_key) [
    | inl n ↦ rw (n, enable_udp_mouse) h
    | inr (key, k) ↦ elim (Option-cases (sent key).1) [
      | inl o ↦ cc
      | inr (x, o) ↦ rw (k, enable_udp_mouse, o) refl
    ]
  ]
    where
      sent : Bytes → State × Option Error
      sent key =
          reply fl json c (record (message fl MsgType.udp_key) { udp_key = c.base64 key })
            (record s { udp = start key s.udp })

  serve_session-udp :
      (w : Bool) (r : Bytes) (s : State)
      → s.udp.key ≡ none
      → (serve_session fl json c w r s).udp.key ≡ none
  unfolding serve_session close_udp stop
  serve_session-udp false r s h = ap (λ u. u.key) (serve-udp (length r) r s) ∙ h
  serve_session-udp true r s h = elim (Bool-cases (enable_udp_mouse fl json c s).1) [
    | inl o ↦ rw o refl
    | inr o ↦ rw o (ap (λ u. u.key) (serve-udp (length r) r _) ∙ enable_udp_mouse-failed s h o)
  ]

  greet-udp : (s : State) → (greet fl json c s).0.udp ≡ s.udp
  unfolding greet reply
  greet-udp s = elim (Option-cases (reply fl json c (message fl MsgType.auth_ok) s).1) [
    | inl o ↦ rw (o, greet) refl
    | inr (x, o) ↦ rw (o, greet) refl
  ]

  welcomed :
      (m : Message fl) (rest : Bytes) (g : State × Option Error)
      → g.0.udp.key ≡ none
      → (welcome fl json c m rest g).udp.key ≡ none
  unfolding welcome
  welcomed m rest (s, some x) h = h
  welcomed m rest (s, none) h = serve_session-udp m.udp_mouse rest s h

  -- A connection that finds the UDP mouse channel closed leaves it closed, whatever it read, whether it
  -- was accepted, and whichever write failed: no datagram is applied after it.
  pub handle_conn_closes_udp :
      (r : Bytes) (s : State) → s.udp.key ≡ none → (handle_conn fl json c r s).udp.key ≡ none
  unfolding handle_conn
  handle_conn_closes_udp r s h = elim (Result-cases (read_message fl json r)) [
    | inl ((m, rest), e) ↦ elim (Bool-cases (accepts fl json c m)) [
      | inl a ↦
          rw (e, handle_conn, a)
            (welcomed m rest (greet fl json c s) (ap (λ u. u.key) (greet-udp s) ∙ h))
      | inr a ↦ rw (e, handle_conn, a) (unfold refuse reply in h)
    ]
    | inr (x, e) ↦ rw (e, handle_conn) (unfold refuse reply in h)
  ]
