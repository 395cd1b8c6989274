-- ===== src/Target/Conn/Replies.antt =====
-- What a connection of cmd/target/main.go writes: only the replies of the handshake.
use ea_share.Base.{
  ℕ, zero, suc, ◌≡◌, refl, ◌∙◌, Bool, true, false, none, Bytes, length, bytes_eq_refl, inl, inr,
  arith,
}
use ea_share.Float.{Float}
use ea_share.Stream.{ok, Result-cases}
use ea_share.Protocol.{Message, MsgType, Json, read_message}
use ea_share.Target.Dispatch.{Dispatched, call, nothing, unknown_button, unknown_type}
use ea_share.Target.Conn.{
  Setup, State, enable_udp_mouse, serve_message, serve, serve_session, close_udp, record_call,
  accepts, tokens_equal, welcome, greet, handle_conn,
}

module _ (fl : Float) (json : Json fl) (c : Setup) where
  record_call-conn : (d : Dispatched) (s : State) → (record_call fl json c d s).conn ≡ s.conn
  unfolding record_call
  record_call-conn (call i) s = refl
  record_call-conn nothing s = refl
  record_call-conn (unknown_button b) s = refl
  record_call-conn (unknown_type t) s = refl

  pub serve-conn : (f : ℕ) (r : Bytes) (s : State) → (serve fl json c f r s).conn ≡ s.conn
  unfolding serve serve_message
  serve-conn zero r s = refl
  serve-conn (suc f) r s = elim (Result-cases (read_message fl json r)) [
    | inl ((m, rest), e) ↦
        rw (e, serve) (serve-conn f rest (serve_message fl json c m s) ∙ record_call-conn _ _)
    | inr (x, e) ↦ rw (e, serve) refl
  ]

  close_udp-conn : (b : Bool) (s : State) → (close_udp fl json c b s).conn ≡ s.conn
  unfolding close_udp
  close_udp-conn true s = refl
  close_udp-conn false s = refl

  pub serve_session-conn :
      (r : Bytes) (s : State)
      → (serve_session fl json c true r s).conn ≡ (enable_udp_mouse fl json c s).0.conn
  unfolding serve_session
  serve_session-conn r s =
      close_udp-conn (enable_udp_mouse fl json c s).1
        (serve fl json c (length r) r (enable_udp_mouse fl json c s).0)
      ∙ serve-conn (length r) r (enable_udp_mouse fl json c s).0

  pub accepts-auth :
      (m : Message fl) → m.type ≡ MsgType.auth → m.token ≡ c.token → accepts fl json c m ≡ true
  unfolding accepts tokens_equal
  accepts-auth m t k = rw (t, k) (ground (arith, bytes_eq_refl c.token))

  pub handle_conn-accepted :
      (m : Message fl) (r rest : Bytes) (s t : State)
      → read_message fl json r ≡ ok (m, rest)
      → accepts fl json c m ≡ true
      → greet fl json c s ≡ (t, none)
      → handle_conn fl json c r s ≡ serve_session fl json c m.udp_mouse rest t
  unfolding handle_conn welcome
  handle_conn-accepted m r rest s t e a g = rw (e, handle_conn, a, g) refl
