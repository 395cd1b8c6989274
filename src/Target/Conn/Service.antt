-- ===== src/Target/Conn/Service.antt =====
-- cmd/target/main.go: the loop of `handleConn` over the messages of an authenticated controller.
use ea_share.Base.{
  ℕ, Bool, zero, suc, ◌+◌, ◌≤◌, ◌≡◌, refl, sym, ap, ◌∙◌, some, List, [], ◌∷◌, ◌++◌, arith, Bytes,
  length, put_uint32, inl, inr, append-nil, append_assoc, length-append, length-put_uint32, All,
}
use ea_share.Float.{Float}
use ea_share.Stream.{Error, ok, err, Result-cases}
use ea_share.Protocol.{Message, MsgType, Button, opposite, Json, max_message_size, read_message}
use ea_share.Protocol.Framing.{read_message_bounded, frame, read_message-frame}
use ea_share.Target.Dispatch.{
  Injection, Dispatched, call, nothing, unknown_button, unknown_type, dispatch, dispatch_type,
  dispatch_button, engage, Counts, key, mouse_move, mouse_button, mouse_wheel, warp_cursor,
}
use ea_share.Controller.EdgeMath.{entry_position}
use ea_share.Target.Conn.{Setup, State, serve_message, serve, record_call}

-- The injector's calls of one outcome.
abbrev calls_of : Dispatched → List Injection
calls_of (call i) = i ∷ []
calls_of nothing = []
calls_of (unknown_button b) = []
calls_of (unknown_type t) = []

pub length-frame : (body r : Bytes) → length (frame body ++ r) ≡ 4 + (length body + length r)
length-frame body r = omega (
  arith,
  length-append (frame body) r,
  length-append (put_uint32 (length body)) body,
  length-put_uint32 (length body),
)

module _ (fl : Float) (json : Json fl) (c : Setup) where
  -- What a message asks for: its own key, step, button or notches, or the entry through the edge opposite to
  -- the one it names. An unknown button, a ping and any other type ask for nothing.
  abbrev pressed : Button → Bool → List Injection
  pressed Button.left down = mouse_button Button.left down ∷ []
  pressed Button.right down = mouse_button Button.right down ∷ []
  pressed Button.middle down = mouse_button Button.middle down ∷ []
  pressed (Button.other s) down = []

  abbrev asked : MsgType → Message fl → List Injection
  asked MsgType.auth m = []
  asked MsgType.auth_ok m = []
  asked MsgType.auth_fail m = []
  asked MsgType.key m = key m.key m.down ∷ []
  asked MsgType.mouse_move m = mouse_move m.dx m.dy ∷ []
  asked MsgType.mouse_button m = pressed m.button m.down
  asked MsgType.mouse_wheel m = mouse_wheel m.amount ∷ []
  asked MsgType.ping m = []
  asked MsgType.screen_info m = []
  asked MsgType.engage m =
      let (x, y) = entry_position fl (opposite m.edge) m.rel_pos c.own_w c.own_h in
      warp_cursor x y ∷ []
  asked MsgType.udp_key m = []
  asked (MsgType.other s) m = []

  abbrev pub injected : Message fl → List Injection
  injected m = asked m.type m

  dispatch_button-pressed :
      (b : Button) (down : Bool) → calls_of (dispatch_button b down) ≡ pressed b down
  unfolding dispatch_button
  dispatch_button-pressed Button.left down = refl
  dispatch_button-pressed Button.right down = refl
  dispatch_button-pressed Button.middle down = refl
  dispatch_button-pressed (Button.other s) down = refl

  dispatch_type-asked :
      (t : MsgType) (m : Message fl) (n : Counts)
      → calls_of (dispatch_type fl c.own_w c.own_h t m n).1 ≡ asked t m
  unfolding dispatch_type engage
  dispatch_type-asked MsgType.auth m n = refl
  dispatch_type-asked MsgType.auth_ok m n = refl
  dispatch_type-asked MsgType.auth_fail m n = refl
  dispatch_type-asked MsgType.key m n = refl
  dispatch_type-asked MsgType.mouse_move m n = refl
  dispatch_type-asked MsgType.mouse_button m n = dispatch_button-pressed m.button m.down
  dispatch_type-asked MsgType.mouse_wheel m n = refl
  dispatch_type-asked MsgType.ping m n = refl
  dispatch_type-asked MsgType.screen_info m n = refl
  dispatch_type-asked MsgType.engage m n = refl
  dispatch_type-asked MsgType.udp_key m n = refl
  dispatch_type-asked (MsgType.other s) m n = refl

  dispatch-injected :
      (m : Message fl) (n : Counts) → calls_of (dispatch fl c.own_w c.own_h m n).1 ≡ injected m
  unfolding dispatch
  dispatch-injected m n = dispatch_type-asked m.type m n

  abbrev pub injected_all : List (Message fl) → List Injection
  injected_all [] = []
  injected_all (m ∷ ms) = injected m ++ injected_all ms

  -- The bytes of messages that are sent one after the other.
  abbrev pub stream : List (Message fl × Bytes) → Bytes
  stream [] = []
  stream ((m, body) ∷ xs) = frame body ++ stream xs

  abbrev pub messages : List (Message fl × Bytes) → List (Message fl)
  messages [] = []
  messages ((m, body) ∷ xs) = m ∷ messages xs

  abbrev pub IsEncoded : Message fl × Bytes → Type 0
  IsEncoded (m, body) = (json.unmarshal body ≡ some m) × (length body ≤ max_message_size)

  serve_step :
      (f : ℕ) (r rest : Bytes) (m : Message fl) (s : State)
      → read_message fl json r ≡ ok (m, rest)
      → serve fl json c (suc f) r s ≡ serve fl json c f rest (serve_message fl json c m s)
  unfolding serve
  serve_step f r rest m s e = rw (e, serve) refl

  serve_end :
      (f : ℕ) (r : Bytes) (x : Error) (s : State)
      → read_message fl json r ≡ err x
      → serve fl json c f r s ≡ s
  unfolding serve
  serve_end zero r x s e = refl
  serve_end (suc f) r x s e = rw (e, serve) refl

  -- The loop's fuel never decides: with the length of the input or more it runs until a read fails.
  pub serve_fuel :
      (f g : ℕ) (r : Bytes) (s : State)
      → length r ≤ f
      → length r ≤ g
      → serve fl json c f r s ≡ serve fl json c g r s
  serve_fuel zero g r s hf hg = elim (Result-cases (read_message fl json r)) [
    | inl ((m, rest), e) ↦ absurd (omega (arith, read_message_bounded fl json r rest m e))
    | inr (x, e) ↦ serve_end zero r x s e ∙ sym (serve_end g r x s e)
  ]
  serve_fuel (suc f) zero r s hf hg = elim (Result-cases (read_message fl json r)) [
    | inl ((m, rest), e) ↦ absurd (omega (arith, read_message_bounded fl json r rest m e))
    | inr (x, e) ↦ serve_end (suc f) r x s e ∙ sym (serve_end zero r x s e)
  ]
  serve_fuel (suc f) (suc g) r s hf hg = elim (Result-cases (read_message fl json r)) [
    | inl ((m, rest), e) ↦
        let b = read_message_bounded fl json r rest m e in
        rw (serve_step f r rest m s e, serve_step g r rest m s e)
          (serve_fuel f g rest (serve_message fl json c m s) (omega (arith, b)) (omega (arith, b)))
    | inr (x, e) ↦ serve_end (suc f) r x s e ∙ sym (serve_end (suc g) r x s e)
  ]

  record_call-calls :
      (d : Dispatched) (s : State) → (record_call fl json c d s).calls ≡ s.calls ++ calls_of d
  unfolding record_call
  record_call-calls (call i) s = refl
  record_call-calls nothing s = sym (append-nil s.calls)
  record_call-calls (unknown_button b) s = sym (append-nil s.calls)
  record_call-calls (unknown_type t) s = sym (append-nil s.calls)

  serve_message-calls :
      (m : Message fl) (s : State) → (serve_message fl json c m s).calls ≡ s.calls ++ injected m
  unfolding serve_message
  serve_message-calls m s =
      record_call-calls _ _ ∙ ap (λ is. s.calls ++ is) (dispatch-injected m s.counts)

  -- Frames that decode, and then an input that ends or does not decode: the injector is called for
  -- exactly these messages, in their order.
  pub serve-stream :
      (xs : List (Message fl × Bytes)) (rest : Bytes) (x : Error) (f : ℕ) (s : State)
      → All IsEncoded xs
      → read_message fl json rest ≡ err x
      → length (stream xs ++ rest) ≤ f
      → (serve fl json c f (stream xs ++ rest) s).calls ≡ s.calls ++ injected_all (messages xs)
  serve-stream [] rest x f s h e hf = rw (serve_end f rest x s e) (sym (append-nil s.calls))
  serve-stream ((m, body) ∷ xs) rest x zero s h e hf = absurd (
      omega (
        arith,
        length-frame body (stream xs ++ rest),
        ap length (append_assoc (frame body) (stream xs) rest),
      ))
  serve-stream ((m, body) ∷ xs) rest x (suc f) s h e hf =
      let r = stream xs ++ rest in
      let split = append_assoc (frame body) (stream xs) rest in
      let reads = read_message-frame fl json m body r h.0.0 h.0.1 in
      rw
        (
          split,
          serve_step f (frame body ++ r) r m s reads,
          serve-stream xs rest x f (serve_message fl json c m s) h.1 e
              (omega (arith, length-frame body r, ap length split)),
          serve_message-calls m s,
        )
        (append_assoc s.calls (injected m) (injected_all (messages xs)))
