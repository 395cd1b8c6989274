-- ===== src/Tray/Processes/Tracking.antt =====
-- What the tray makes of a target's output.
use text.Mathlib.Text.{◌==◌ as str_eq}
use ea_share.Base.{◌≡◌, refl, ◌∙◌, String, Bool, true, false, ◌||◌, List, [], ◌∷◌, arith, All}
use ea_share.Tray.Profiles.{TargetProfile}
use ea_share.Tray.Token.{is_likely_token}
use ea_share.Tray.Store.{ConfigJson, Access}
use ea_share.Tray.Processes.{
  App, Watch, Strings, at_least_tcp, conn_udp, on_line, on_lines, track, note_token, watch_of,
  set_target_conn, upgrade_target_conn_at_least_tcp, save_generated_target_token,
}

module _ (json : ConfigJson) (os : Access) (strings : Strings) where
  -- The profiles and their file are the same.
  abbrev IsKept : App → App → Type 0
  IsKept a b = (b.cfg ≡ a.cfg) × (b.file ≡ a.file)

  track-IsKept : (line : String) (a : App) → IsKept a (track json os strings line a)
  unfolding track set_target_conn upgrade_target_conn_at_least_tcp
  track-IsKept line a = ground arith

  on_line-settled :
      (text : String) (w : Watch) (a : App)
      → w.awaiting_generated_token ≡ false
      → ((on_line json os strings text w a).0 ≡ w) × IsKept a (on_line json os strings text w a).1
  unfolding on_line note_token
  on_line-settled text w a h = ground (arith, track-IsKept (strings.trim_space text) a)

  on_lines-settled :
      (lines : List String) (w : Watch) (a : App)
      → w.awaiting_generated_token ≡ false
      → IsKept a (on_lines json os strings lines w a).1
  unfolding on_lines
  on_lines-settled [] w a h = (refl, refl)
  on_lines-settled (line ∷ lines) w a h =
      let (same, (cfg, file)) = on_line-settled line w a h in
      let (cfg', file') = on_lines-settled lines w (on_line json os strings line w a).1 h in
      rw (same, on_lines) (cfg' ∙ cfg, file' ∙ file)

  -- Whatever a target prints that was started with a token, the profiles and their file stay as they are.
  pub on_lines-cfg :
      (lines : List String) (tp : TargetProfile) (a : App)
      → str_eq tp.token "" ≡ false
      → ((on_lines json os strings lines (watch_of tp) a).1.cfg ≡ a.cfg)
        × ((on_lines json os strings lines (watch_of tp) a).1.file ≡ a.file)
  unfolding watch_of
  on_lines-cfg lines tp a h = on_lines-settled lines (watch_of tp) a h

  -- The line that announces a generated token, and the one that is it.
  abbrev pub Announces : String → Type 0
  Announces text =
      (str_eq (strings.trim_space text) "" ≡ false)
      × (strings.contains (strings.trim_space text) "generated one for this session" ≡ true)

  abbrev pub IsTokenLine : String → Type 0
  IsTokenLine text =
      (str_eq (strings.trim_space text) "" ≡ false)
      × (strings.contains (strings.trim_space text) "generated one for this session" ≡ false)
      × (is_likely_token (strings.trim_space text) ≡ true)

  pub on_line-Announces :
      (text : String) (w : Watch) (a : App)
      → w.awaiting_generated_token ≡ true
      → Announces text
      → on_line json os strings text w a ≡ (w, a)
  unfolding on_line
  on_line-Announces text w a h (e, c) = rw (e, on_line, h, c) refl

  on_line-token :
      (text : String) (w : Watch) (a : App)
      → w.awaiting_generated_token ≡ true
      → IsTokenLine text
      → on_line json os strings text w a ≡ (
        record w { awaiting_generated_token = false },
        track json os strings
            (strings.trim_space text)
            (save_generated_target_token json os w.name (strings.trim_space text) a),
      )
  unfolding on_line note_token
  on_line-token text w a h (e, c, t) = rw (e, on_line, h, c, t) refl

  pub on_lines-skip :
      (text : String) (lines : List String) (w : Watch) (a : App)
      → on_line json os strings text w a ≡ (w, a)
      → on_lines json os strings (text ∷ lines) w a ≡ on_lines json os strings lines w a
  unfolding on_lines
  on_lines-skip text lines w a h = rw (h, on_lines) refl

  -- A target that was started without a token announces a generated one and prints it: from then on,
  -- whatever else it prints, the tray keeps that token in the profiles of that name and in their file.
  pub on_lines-token :
      (announcement token : String) (lines : List String) (tp : TargetProfile) (a : App)
      → str_eq tp.token "" ≡ true
      → Announces announcement
      → IsTokenLine token
      → let b = (on_lines json os strings (announcement ∷ token ∷ lines) (watch_of tp) a).1 in
        let c = save_generated_target_token json os tp.name (strings.trim_space token) a in
        (b.cfg ≡ c.cfg) × (b.file ≡ c.file)
  unfolding on_lines watch_of
  on_lines-token announcement token lines tp a h n t =
      let w = watch_of tp in
      let saved = save_generated_target_token json os tp.name (strings.trim_space token) a in
      let (cfg, file) = track-IsKept (strings.trim_space token) saved in
      let (cfg', file') =
        on_lines-settled lines (record w { awaiting_generated_token = false })
          (track json os strings (strings.trim_space token) saved) refl in
      rw (on_line-Announces announcement w a h n, on_lines, on_line-token token w a h t)
        (cfg' ∙ cfg, file' ∙ file)

  -- A line that reports the end of a connection, or none.
  abbrev pub ends : String → Bool
  ends line =
      strings.contains line "disconnected"
      || strings.contains line "auth failed"
      || strings.contains line "awaiting auth"

  track-udp :
      (line : String) (a : App)
      → ends line ≡ false
      → a.target.conn ≡ conn_udp
      → (track json os strings line a).target.conn ≡ conn_udp
  unfolding track set_target_conn upgrade_target_conn_at_least_tcp at_least_tcp
  track-udp line a e h = rw (e, track, h) (ground arith)

  note_token-conn :
      (line : String) (w : Watch) (a : App)
      → (note_token json os strings line w a).1.target.conn ≡ a.target.conn
  unfolding note_token save_generated_target_token
  note_token-conn line w a = ground arith

  on_line-udp :
      (text : String) (w : Watch) (a : App)
      → ends (strings.trim_space text) ≡ false
      → a.target.conn ≡ conn_udp
      → (on_line json os strings text w a).1.target.conn ≡ conn_udp
  unfolding on_line
  on_line-udp text w a e h =
      let line = strings.trim_space text in
      let noted = (note_token json os strings line w a).1 in
      ground (arith, track-udp line noted e (note_token-conn line w a ∙ h))

  -- Once the UDP channel is reported the tray shows it until a line reports the end of the connection: the
  -- authentication that is printed later does not take it back.
  pub on_lines-udp :
      (lines : List String) (w : Watch) (a : App)
      → All (λ text. ends (strings.trim_space text) ≡ false) lines
      → a.target.conn ≡ conn_udp
      → (on_lines json os strings lines w a).1.target.conn ≡ conn_udp
  unfolding on_lines
  on_lines-udp [] w a e h = h
  on_lines-udp (line ∷ lines) w a (e, es) h =
      on_lines-udp lines (on_line json os strings line w a).0 (on_line json os strings line w a).1
        es (on_line-udp line w a e h)
