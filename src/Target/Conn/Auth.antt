-- ===== src/Target/Conn/Auth.antt =====
-- Who is served: nothing is injected for a peer that does not authenticate.
use ea_share.Base.{◌≡◌, ◌≢◌, refl, true, arith, Bytes, bytes_eq→eq, Bool-cases, inl, inr}
use ea_share.Float.{Float}
use ea_share.Stream.{Result, ok, err}
use ea_share.Protocol.{Message, MsgType, Json, read_message}
use ea_share.Target.Conn.{Setup, State, tokens_equal, reply, accepts, refuse, handle_conn}

module _ (fl : Float) (json : Json fl) (c : Setup) where
  accepts→auth :
      (m : Message fl) → accepts fl json c m ≡ true → (m.type ≡ MsgType.auth) × (m.token ≡ c.token)
  unfolding accepts tokens_equal
  accepts→auth m h = ground (arith, bytes_eq→eq m.token c.token)

  -- If a connection led to any call of the injector or the cursor warp, its first message was an `auth`
  -- message that carried exactly the configured token.
  pub handle_conn_needs_token :
      (r : Bytes) (s : State)
      → (handle_conn fl json c r s).calls ≢ s.calls
      → (m : Message fl) × (rest : Bytes) × (read_message fl json r ≡ ok (m, rest))
        × (m.type ≡ MsgType.auth)
        × (m.token ≡ c.token)
  unfolding handle_conn
  handle_conn_needs_token r s h = go (read_message fl json r) refl
    where
      go :
          (x : Result (Message fl × Bytes))
          → read_message fl json r ≡ x
          → (m : Message fl) × (rest : Bytes) × (x ≡ ok (m, rest))
            × (m.type ≡ MsgType.auth)
            × (m.token ≡ c.token)
      go (ok (m, rest)) e = elim (Bool-cases (accepts fl json c m)) [
        | inl a ↦ (m, rest, refl, (accepts→auth m a).0, (accepts→auth m a).1)
        | inr a ↦ absurd (h (rw (e, handle_conn) (rw a (unfold refuse reply in refl))))
      ]
      go (err x) e = absurd (h (rw (e, handle_conn) (unfold refuse reply in refl)))
