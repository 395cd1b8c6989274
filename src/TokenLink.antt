-- ===== src/TokenLink.antt =====
-- cmd/target/main.go and cmd/tray/menu.go: the token that a target prints is the one that the tray keeps and
-- starts it with the next time.
use Prim.Native.String.{◌++◌ as text_append}
use text.Mathlib.Text.{◌==◌ as str_eq}
use ea_share.Base.{
  ◌≡◌, refl, sym, ◌∙◌, ap, String, Bool-cases, inl, inr, true, false, some, List, [], ◌∷◌, ◌++◌,
  All, Bytes, IsByte, length, arith, eq_iff,
}
use ea_share.Target.Token.{token_size, hex_encode, random_token, announced, start_token}
use ea_share.Target.Token.Hex.{hex_encode-likely, all_hex-hex_encode}
use ea_share.Tray.Token.{all_hex, is_likely_token}
use ea_share.Tray.Profiles.{TargetProfile, find_target_profile}
use ea_share.Tray.Store.{ConfigJson, Access}
use ea_share.Tray.Processes.{
  App, Watch, Strings, on_line, on_lines, watch_of, target_args, save_generated_target_token,
  save_token,
}
use ea_share.Tray.Processes.Tracking.{
  Announces, IsTokenLine, on_line-Announces, on_lines-skip, on_lines-token,
}

-- What the strings package does with the lines: it trims nothing of the announcement, the indent of a text of
-- hex digits, and a blank line to nothing; the phrase stands in the announcement and in no text of hex digits.
pub record ReadsTokens (s : Strings) : Type 0 where
  pub announcement_trimmed :
      s.trim_space "No -token given; generated one for this session:"
      ≡ "No -token given; generated one for this session:"
  pub phrase_found :
      s.contains "No -token given; generated one for this session:" "generated one for this session"
      ≡ true
  pub blank_trimmed : s.trim_space "" ≡ ""
  pub indent_trimmed : (t : String) → all_hex t ≡ true → s.trim_space (text_append "  " t) ≡ t
  pub phrase_missing :
      (t : String) → all_hex t ≡ true → s.contains t "generated one for this session" ≡ false

not_empty : (t : String) → is_likely_token t ≡ true → str_eq t "" ≡ false
unfolding is_likely_token
not_empty t h = elim (Bool-cases (str_eq t "")) [
  | inl e ↦ absurd (let likely = rw ((eq_iff t "").0 e) at h in cc)
  | inr e ↦ e
]

find-save_token :
    (name token : String) (tps : List TargetProfile) (tp : TargetProfile)
    → find_target_profile name tps ≡ some tp
    → find_target_profile name (save_token name token tps) ≡ some (record tp { token = token })
unfolding find_target_profile save_token
find-save_token name token [] tp h = cc
find-save_token name token (p ∷ tps) tp h = elim (Bool-cases (str_eq p.name name)) [
  | inl here ↦ let same : p ≡ tp = ground arith in rw (sym same) (ground arith)
  | inr there ↦ ground (arith, find-save_token name token tps tp (ground arith))
]

module _ (json : ConfigJson) (os : Access) (strings : Strings) (laws : ReadsTokens strings) where
  blank_skipped : (w : Watch) (a : App) → on_line json os strings "" w a ≡ (w, a)
  unfolding on_line
  blank_skipped w a = rw (laws.blank_trimmed, on_line) refl

  announcement_lem : Announces json os strings "No -token given; generated one for this session:"
  announcement_lem = rw laws.announcement_trimmed (refl, laws.phrase_found)

  token_line_lem :
      (bytes : Bytes)
      → All IsByte bytes
      → length bytes ≡ token_size
      → IsTokenLine json os strings (text_append "  " (hex_encode bytes))
  token_line_lem bytes h l =
      let hex = all_hex-hex_encode bytes in
      let likely = hex_encode-likely bytes h (omega arith) in
      rw (laws.indent_trimmed (hex_encode bytes) hex)
        (not_empty (hex_encode bytes) likely, laws.phrase_missing (hex_encode bytes) hex, likely)

  -- A target of a profile without a token starts, with random bytes for its token, and prints: the tray, on these
  -- lines and any further ones, keeps exactly the token that the target demands, and the command line for that
  -- profile has it from then on.
  pub learned_token :
      (tp : TargetProfile) (a : App) (bytes : Bytes) (further : List String)
      → str_eq tp.token "" ≡ true
      → All IsByte bytes
      → length bytes ≡ token_size
      → find_target_profile tp.name a.cfg.targets ≡ some tp
      → (token : String) × (printed : List String) × (next : TargetProfile) × (start_token ""
            (some bytes)
          ≡ some (token, printed))
        × (find_target_profile tp.name
              (on_lines json os strings (printed ++ further) (watch_of tp) a).1.cfg.targets
            ≡ some next)
        × (target_args next ≡ "-listen" ∷ tp.listen ∷ "-token" ∷ token ∷ [])
  unfolding start_token random_token announced save_generated_target_token target_args watch_of
  learned_token tp a bytes further e h l found =
      let token = hex_encode bytes in
      let w = watch_of tp in
      let hex = all_hex-hex_encode bytes in
      let likely = hex_encode-likely bytes h (omega arith) in
      let rest = text_append "  " token ∷ "" ∷ further in
      let first : String = "No -token given; generated one for this session:" in
      let heard = on_line-Announces json os strings first w a e announcement_lem in
      let (kept, file) =
        on_lines-token json os strings first (text_append "  " token) ("" ∷ further) tp a e
          announcement_lem (token_line_lem bytes h l) in
      let skipped =
        on_lines-skip json os strings first ("" ∷ rest) w a heard
        ∙ on_lines-skip json os strings "" rest w a (blank_skipped w a)
        ∙ sym (on_lines-skip json os strings first rest w a heard) in
      let cfg = rw (laws.indent_trimmed token hex) at (ap (λ r. r.1.cfg) skipped ∙ kept) in
      (
        token,
        announced token,
        record tp { token = token },
        refl,
        ap (λ c. find_target_profile tp.name c.targets) cfg
            ∙ find-save_token tp.name token a.cfg.targets tp found,
        rw (not_empty token likely) refl,
      )
