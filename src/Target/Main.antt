-- ===== src/Target/Main.antt =====
-- cmd/target/main.go: `main` from the flags to its accept loop, with `startClipboardListener` of clipboard_windows.go
-- and `startMouseUDPListener`, and what their loops do after that. A line of output is a string.
pub mod Serving
use ea_share.Base.{
  ℕ, String, Bool, true, false, Option, none, some, List, [], ◌∷◌, ◌++◌, Bytes, ◌≡◌, if◌then◌else◌,
}
use Prim.Native.String.{◌++◌ as text_append}
use ea_share.Addr.{Net, clip_addr, mouse_addr}
use ea_share.Identity.{Crypto, Files, Access, Fresh, fingerprint, load_or_generate_cert}
use ea_share.Target.Token.{start_token}
use ea_share.Target.Accept.{Listener, accept_conn, handler_returned, clear_active}

-- What the system gives: the random bytes of a token, the files and the fresh keys of a certificate, the injector,
-- and the addresses on which TLS and UDP can be listened to.
pub record System : Type 0 where
  pub random : Option Bytes
  pub os : Access
  pub fresh : Fresh
  pub files : Files
  pub injector : Bool
  pub tls_listens : String → Bool
  pub resolves : String → Option String
  pub udp_listens : String → Bool

-- A target that listens: its token, its certificate, the addresses of the clipboard's and the mouse's channel where
-- these are up, the two accept loops, whether the clipboard's goes on, and whether the target has ended.
pub record Target : Type 0 where
  pub token : String
  pub certificate : Bytes
  pub printed : List String
  pub clip_at : Option String
  pub mouse_at : Option String
  pub main : Listener
  pub clip : Listener
  pub clip_listens : Bool
  pub ended : Bool

-- How `main` comes to its loop, or ends before it.
pub data Started : Type 0 where
  serving : Target → Started
  no_token no_certificate no_injector not_listening : Started

abbrev pub unused : Listener
unused = record { active = none; handlers = []; closed = [] }

is_some : Option String → Bool
is_some none = false
is_some (some a) = true

module _ (net : Net) (crypto : Crypto) where
  listen_at : (String → Bool) → Option String → Option String
  listen_at listens none = none
  listen_at listens (some a) = if listens a then some a else none

  resolved : System → Option String → Option String
  resolved sys none = none
  resolved sys (some a) = sys.resolves a

  -- `startClipboardListener`: the address, or `none` for an error.
  unfoldable pub start_clipboard_listener : System → String → Option String
  unfolding listen_at
  start_clipboard_listener sys listen = listen_at sys.tls_listens (clip_addr net listen)

  -- `startMouseUDPListener`.
  unfoldable pub start_mouse_udp_listener : System → String → Option String
  unfolding listen_at resolved
  start_mouse_udp_listener sys listen =
      listen_at sys.udp_listens (resolved sys (mouse_addr net listen))

  fingerprint_lines : Bytes → List String
  fingerprint_lines der =
      "Certificate fingerprint (verify this matches on the controller):"
      ∷ ""
      ∷ text_append "  " (fingerprint crypto der)
      ∷ ""
      ∷ []

  listening_line : String → String
  listening_line listen =
      text_append "Listening on " (text_append listen ". Waiting for a controller to connect...")

  unfoldable pub listening_target : System → String → String → Bytes → List String → Target
  unfolding is_some fingerprint_lines listening_line
  listening_target sys listen token der lines =
      let clip = start_clipboard_listener sys listen in
      record {
        token = token;
        certificate = der;
        printed = lines ++ (fingerprint_lines der ++ (listening_line listen ∷ []));
        clip_at = clip;
        mouse_at = start_mouse_udp_listener sys listen;
        main = unused;
        clip = unused;
        clip_listens = is_some clip;
        ended = false;
      }

  start_listening : System → String → String → Bytes → List String → Started
  start_listening sys listen token der lines =
      if sys.tls_listens listen
      then serving (listening_target sys listen token der lines)
      else not_listening

  with_certificate : System → String → String → List String → Option Bytes → Started
  unfolding start_listening
  with_certificate sys listen token lines none = no_certificate
  with_certificate sys listen token lines (some der) =
      if sys.injector then start_listening sys listen token der lines else no_injector

  with_token : System → String → Option (String × List String) → Started
  unfolding with_certificate
  with_token sys listen none = no_token
  with_token sys listen (some (token, lines)) =
      with_certificate sys listen token lines
        (load_or_generate_cert crypto sys.os sys.fresh sys.files).1

  -- `main` with `-listen` and `-token` up to its loop.
  unfoldable pub main : System → String → String → Started
  unfolding with_token
  main sys listen token = with_token sys listen (start_token token sys.random)

-- The two loops and their goroutines, in any order, until the main loop fails to accept: then `main` returns.
pub data Step : Target → Target → Type 0 where
  main_accepted :
      {t : Target} (c : ℕ) → t.ended ≡ false → Step t (record t { main = accept_conn c t.main })
  main_returned :
      {t : Target} (before after : List (ℕ × Bool)) (c : ℕ)
      → t.ended ≡ false
      → t.main.handlers ≡ before ++ ((c, true) ∷ after)
      → Step t (record t { main = handler_returned c t.main })
  main_cleared :
      {t : Target} (before after : List (ℕ × Bool)) (c : ℕ)
      → t.ended ≡ false
      → t.main.handlers ≡ before ++ ((c, false) ∷ after)
      → Step t (record t { main = clear_active c t.main })
  main_failed : {t : Target} → Step t (record t { ended = true })
  clip_accepted :
      {t : Target} (c : ℕ)
      → t.ended ≡ false
      → t.clip_listens ≡ true
      → Step t (record t { clip = accept_conn c t.clip })
  clip_returned :
      {t : Target} (before after : List (ℕ × Bool)) (c : ℕ)
      → t.ended ≡ false
      → t.clip.handlers ≡ before ++ ((c, true) ∷ after)
      → Step t (record t { clip = handler_returned c t.clip })
  clip_cleared :
      {t : Target} (before after : List (ℕ × Bool)) (c : ℕ)
      → t.ended ≡ false
      → t.clip.handlers ≡ before ++ ((c, false) ∷ after)
      → Step t (record t { clip = clear_active c t.clip })
  clip_failed : {t : Target} → t.ended ≡ false → Step t (record t { clip_listens = false })

pub data Reach (first : Target) : Target → Type 0 where
  here : Reach first first
  next : {t u : Target} → Reach first t → Step t u → Reach first u
