-- ===== src/SessionLink.antt =====
-- Both ends of a connection without edge switching: `runLegacy` of cmd/controller/main.go, and the loop
-- of `handleConn` of cmd/target/main.go.
use ea_share.Base.{
  ℕ, ◌+◌, ◌-◌, ◌≤◌, ◌≡◌, refl, sym, ap, ◌∙◌, none, some, List, [], ◌∷◌, ◌++◌, arith, Bytes, length,
  All, append_assoc, append-nil,
}
use ea_share.Float.{Float}
use ea_share.Stream.{Writer, err, eof, read_full}
use ea_share.Capture.{key, mouse_move, mouse_button, mouse_wheel, edge_crossed, hotkey_paste}
use ea_share.Protocol.{Button, Message, Json, read_message, max_message_size}
use ea_share.Protocol.Framing.{write_message_fits, frame}
use ea_share.Controller.Legacy.{
  Received, captured, tick, Sending, sending, message_of, relay, run_legacy,
}
use ea_share.Target.Dispatch.{Injection, dispatch}
use ea_share.Target.Conn.{Setup, State, serve}
use ea_share.Target.Conn.Service.{
  IsEncoded, stream, messages, injected, injected_all, serve-stream, length-frame,
}

-- What the loop receives, and the message and body of each part of it that is sent: both sides agree
-- on the body, which is within the limit.
pub data Encodes (fl : Float) (json : Json fl)
    : List (Received fl) → List (Message fl × Bytes) → Type 0 where
  done : Encodes fl json [] []
  skip :
      {r : Received fl} {rs : List (Received fl)} {xs : List (Message fl × Bytes)}
      → message_of fl r ≡ none
      → Encodes fl json rs xs
      → Encodes fl json (r ∷ rs) xs
  put :
      {r : Received fl} {rs : List (Received fl)} {xs : List (Message fl × Bytes)} {m : Message fl}
      {body : Bytes}
      → message_of fl r ≡ some m
      → json.marshal m ≡ some body
      → json.unmarshal body ≡ some m
      → length body ≤ max_message_size
      → Encodes fl json rs xs
      → Encodes fl json (r ∷ rs) ((m, body) ∷ xs)

-- What the user does, as the target should inject it.
abbrev pub direct : {fl : Float} → Received fl → List Injection
direct (captured (key name down)) = Injection.key name down ∷ []
direct (captured (mouse_move dx dy)) = Injection.mouse_move dx dy ∷ []
direct (captured (mouse_button Button.left down)) = Injection.mouse_button Button.left down ∷ []
direct (captured (mouse_button Button.right down)) = Injection.mouse_button Button.right down ∷ []
direct (captured (mouse_button Button.middle down)) = Injection.mouse_button Button.middle down ∷ []
direct (captured (mouse_button (Button.other s) down)) = []
direct (captured (mouse_wheel amount)) = Injection.mouse_wheel amount ∷ []
direct (captured (edge_crossed rel_pos)) = []
direct (captured hotkey_paste) = []
direct tick = []

abbrev pub direct_all : {fl : Float} → List (Received fl) → List Injection
direct_all [] = []
direct_all (r ∷ rs) = direct r ++ direct_all rs

pub empty : (fl : Float) (json : Json fl) → read_message fl json [] ≡ err eof
unfolding read_message read_full
empty fl json = refl

module _ (fl : Float) (json : Json fl) (c : Setup) where
  pub All-IsEncoded :
      {rs : List (Received fl)} {xs : List (Message fl × Bytes)}
      → Encodes fl json rs xs
      → All (IsEncoded fl json c) xs
  All-IsEncoded Encodes.done = tt
  All-IsEncoded (Encodes.skip e k) = All-IsEncoded k
  All-IsEncoded (Encodes.put e a b l k) = ((b, l), All-IsEncoded k)

  injected-direct :
      (r : Received fl)
      → elim (message_of fl r) as (λ x. List Injection) [
        | none ↦ []
        | some m ↦ injected fl json c m
      ]
        ≡ direct r
  unfolding message_of dispatch ea_share.Controller.Legacy.to_message
  injected-direct (captured (key name down)) = refl
  injected-direct (captured (mouse_move dx dy)) = refl
  injected-direct (captured (mouse_button Button.left down)) = refl
  injected-direct (captured (mouse_button Button.right down)) = refl
  injected-direct (captured (mouse_button Button.middle down)) = refl
  injected-direct (captured (mouse_button (Button.other s) down)) = refl
  injected-direct (captured (mouse_wheel amount)) = refl
  injected-direct (captured (edge_crossed rel_pos)) = refl
  injected-direct (captured hotkey_paste) = refl
  injected-direct tick = refl

  pub injected_all-direct :
      {rs : List (Received fl)} {xs : List (Message fl × Bytes)}
      → Encodes fl json rs xs
      → injected_all fl json c (messages fl json c xs) ≡ direct_all rs
  injected_all-direct Encodes.done = refl
  injected_all-direct (Encodes.skip {r = r} {rs = rs} e k) =
      let d : [] ≡ direct r = rw e at (injected-direct r) in
      rw (injected_all-direct k) (ap (λ i. i ++ direct_all rs) d)
  injected_all-direct (Encodes.put {r = r} {rs = rs} {m = m} e a b l k) =
      let d : injected fl json c m ≡ direct r = rw e at (injected-direct r) in
      rw (injected_all-direct k) (ap (λ i. i ++ direct_all rs) d)

  relay-skip :
      (r : Received fl) (w : Writer) → message_of fl r ≡ none → relay fl json r w ≡ sending w
  unfolding relay
  relay-skip r w e = rw (e, relay) refl

  relay-put :
      (r : Received fl) (w : Writer) (m : Message fl) (body : Bytes)
      → message_of fl r ≡ some m
      → json.marshal m ≡ some body
      → length body ≤ max_message_size
      → length body + 4 ≤ w.room
      → relay fl json r w
        ≡ sending (record { sent = w.sent ++ frame body; room = w.room - (length body + 4) })
  unfolding relay
  relay-put r w m body e a l room = rw (e, relay, write_message_fits fl json w m body a l room) refl

  sending_eq :
      (a b : Bytes) (m n : ℕ)
      → a ≡ b
      → m ≡ n
      → sending (record { sent = a; room = m }) ≡ sending (record { sent = b; room = n })
  sending_eq a b m n h k = cc

  pub run_legacy-stream :
      {rs : List (Received fl)} {xs : List (Message fl × Bytes)} (w : Writer)
      → Encodes fl json rs xs
      → length (stream fl json c xs) ≤ w.room
      → run_legacy fl json rs w
        ≡ sending (record {
          sent = w.sent ++ stream fl json c xs;
          room = w.room - length (stream fl json c xs);
        })
  unfolding run_legacy
  run_legacy-stream w Encodes.done room = sending_eq _ _ _ _ (sym (append-nil w.sent)) (omega arith)
  run_legacy-stream w (Encodes.skip {r = r} e k) room =
      rw (relay-skip r w e, run_legacy) (run_legacy-stream w k room)
  run_legacy-stream w (Encodes.put {r = r} {xs = xs} {m = m} {body = body} e a b l k) room =
      let after : Writer = record {
        sent = w.sent ++ frame body;
        room = w.room - (length body + 4);
      } in
      let len = length-frame body (stream fl json c xs) in
      rw (relay-put r w m body e a l (omega arith), run_legacy)
        (run_legacy-stream after k (omega arith)
          ∙ sending_eq _ _ _ _ (append_assoc w.sent (frame body) (stream fl json c xs))
              (omega arith))

  -- A controller that sends every event, over a fresh connection with room for its frames, where both
  -- sides agree on the body of each message and it is within the limit: what it has sent,
  -- served to its end, makes the target inject exactly what the user does, each key, motion, button and
  -- scroll once and in order, and nothing for a tick of the clock or an event that is not sent.
  pub run_legacy-serve :
      {rs : List (Received fl)} {xs : List (Message fl × Bytes)} (w : Writer) (s : State)
      → Encodes fl json rs xs
      → w.sent ≡ []
      → length (stream fl json c xs) ≤ w.room
      → (w' : Writer) × (run_legacy fl json rs w ≡ sending w')
        × ((serve fl json c (length w'.sent) w'.sent s).calls ≡ s.calls ++ direct_all rs)
  run_legacy-serve {rs = rs} {xs = xs} w s k start room =
      let bytes = stream fl json c xs in
      let ran = run_legacy-stream {rs = rs} {xs = xs} w k room in
      let full = append-nil bytes in
      let served =
        serve-stream fl json c xs [] eof (length bytes) s (All-IsEncoded k) (empty fl json)
          (omega (arith, ap length full)) in
      let calls : (serve fl json c (length bytes) bytes s).calls ≡ s.calls ++ direct_all rs =
        rw full at (rw (injected_all-direct k) at served) in
      (
        record { sent = bytes; room = w.room - length bytes },
        ran ∙ sending_eq _ _ _ _ (ap (λ b. b ++ bytes) start) refl,
        calls,
      )
