-- ===== src/Examples/Tokens.antt =====
-- A generated token on its way from the target to the tray, at concrete bytes.
use Prim.Native.String.{[] as empty, ◌∷◌ as cons, ◌++◌ as text_append}
use Prim.Native.Char.{Char, code}
use text.Mathlib.TextLemmas.{cons-append, nil-append}
use ea_share.Base.{
  ◌≡◌, refl, String, true, false, none, some, List, [], ◌∷◌, ◌++◌, ◌==◌, if◌then◌else◌, arith,
  Bytes, All, IsByte,
}
use ea_share.Target.Token.{start_token}
use ea_share.Tray.Token.{all_hex, contains_rune}
use ea_share.Tray.Profiles.{TargetProfile, find_target_profile}
use ea_share.Tray.Store.{ConfigJson, Access}
use ea_share.Tray.Processes.{App, Slot, conn_none, Strings, on_lines, watch_of, target_args}
use ea_share.TokenLink.{ReadsTokens, learned_token}
use ea_share.Examples.Inputs.{contains, starts}

trim : String → String
trim empty = empty
trim (cons c s) = let rest = trim s in if code c == 32 then rest else cons c s

hex_rune :
    (c : Char) (s : String)
    → all_hex (cons c s) ≡ true
    → contains_rune "0123456789abcdefABCDEF" c ≡ true
unfolding all_hex
hex_rune c s h = ground arith

trim-hex : (t : String) → all_hex t ≡ true → trim t ≡ t
unfolding trim contains_rune
trim-hex empty h = refl
trim-hex (cons c s) h = let r = hex_rune c s h in ground arith

append-two : {c d : Char} (t : String) → text_append (cons c (cons d empty)) t ≡ cons c (cons d t)
append-two {c} {d} t =
    rw (cons-append c (cons d empty) t, cons-append d empty t) (rw (nil-append t) refl)

trim-indent : (t : String) → trim (text_append "  " t) ≡ trim t
unfolding trim
trim-indent t = let e : text_append "  " t ≡ _ = append-two t in rw e refl

contains-phrase :
    (t : String) → all_hex t ≡ true → contains t "generated one for this session" ≡ false
unfolding contains starts all_hex contains_rune
contains-phrase empty h = refl
contains-phrase (cons c s) h = let r = hex_rune c s h in ground (arith, contains-phrase s)

abbrev strings : Strings
strings = record { trim_space = trim; contains = contains }

strings-ReadsTokens : ReadsTokens strings
unfolding trim contains starts
strings-ReadsTokens = record {
  announcement_trimmed = refl;
  phrase_found = refl;
  blank_trimmed = refl;
  indent_trimmed = λ t h. rw (trim-indent t) (trim-hex t h);
  phrase_missing = contains-phrase;
}

abbrev desk : TargetProfile
desk = record { name = "desk"; listen = ":7777"; token = "" }

abbrev idle : Slot
idle = record { running = none; name = ""; conn = conn_none }

abbrev tray : App
tray = record {
  cfg = record { lang = "en"; targets = desk ∷ []; controllers = [] };
  file = none;
  lang = "en";
  target = idle;
  ctrl = idle;
  alive = λ q. false;
  command = λ q. [];
}

abbrev json : ConfigJson
json = record { marshal = λ c. some (1 ∷ []); unmarshal = λ b. none }

abbrev granting : Access
granting = record { has_dir = true; reads = true; writes = true }

abbrev random_bytes : Bytes
random_bytes =
    1 ∷ 2 ∷ 3 ∷ 4 ∷ 5 ∷ 6 ∷ 7 ∷ 8 ∷ 9 ∷ 10 ∷ 11 ∷ 12 ∷ 171 ∷ 205 ∷ 239 ∷ 16 ∷ 17 ∷ 18 ∷ 19 ∷ 20 ∷ 21
    ∷ 22 ∷ 254 ∷ 255 ∷ []

random_bytes_small : All IsByte random_bytes
random_bytes_small = ground arith

desk_found : find_target_profile "desk" (desk ∷ []) ≡ some desk
unfolding find_target_profile
desk_found = refl

learned_token_example :
    (token : String) × (printed : List String) × (next : TargetProfile) × (start_token ""
        (some random_bytes)
      ≡ some (token, printed))
    × (find_target_profile "desk"
          (on_lines json granting strings
            (printed ++ "awaiting auth" ∷ [])
            (watch_of desk)
            tray).1.cfg.targets
        ≡ some next)
    × (target_args next ≡ "-listen" ∷ ":7777" ∷ "-token" ∷ token ∷ [])
learned_token_example =
    learned_token json granting strings strings-ReadsTokens desk tray random_bytes
      ("awaiting auth" ∷ []) refl random_bytes_small refl desk_found
