-- ===== src/Target/Clip/Access.antt =====
-- Who reaches the clipboard, and what a paste does to the keys.
use text.Mathlib.Text.{◌==◌ as str_eq}
use ea_share.Base.{
  All, ℕ, ◌≡◌, ◌≢◌, refl, Bool, true, false, not, ◌&&◌, ◌||◌, List, [], ◌∷◌, ◌++◌, Bytes,
  bytes_eq→eq, Bool-cases, inl, inr, arith, if◌then◌else◌, ◌==◌,
}
use ea_share.Stream.{ok, Result-cases}
use ea_share.Clipsync.{read_frame, kind_auth}
use ea_share.Clipboard.{Codec}
use ea_share.Keys.{Name}
use ea_share.Target.Conn.{tokens_equal}
use ea_share.Target.Clip.{
  ClipConn, refuse, handle_clip_conn, inject_paste, release_all, modifier_keys,
}

is_granted :
    (kind : ℕ) (payload token : Bytes)
    → kind == kind_auth && tokens_equal payload token ≡ true
    → (kind ≡ kind_auth) × (payload ≡ token)
unfolding tokens_equal
is_granted kind payload token h = ground (arith, bytes_eq→eq payload token)

-- A connection that gets anything but the refusal (a look at the clipboard, a write to it, a paste)
-- began with an authentication frame that carried exactly the configured token.
pub handle_clip_conn_needs_token :
    (c : Codec) (token r : Bytes) (s : ClipConn)
    → handle_clip_conn c token r s ≢ refuse c s
    → (rest : Bytes) × (read_frame r ≡ ok (kind_auth, token, rest))
unfolding handle_clip_conn
handle_clip_conn_needs_token c token r s h = elim (Result-cases (read_frame r)) [
  | inr (x, e) ↦ absurd (h (rw (e, handle_clip_conn) refl))
  | inl ((kind, payload, rest), e) ↦
      elim (Bool-cases (kind == kind_auth && tokens_equal payload token)) [
        | inl a ↦ let (k, p) = is_granted kind payload token a in (rest, rw (e, k, p) refl)
        | inr a ↦ absurd (h (rw (e, handle_clip_conn) (rw a refl)))
      ]
]

-- The keys that are held after some calls of the injector.
abbrev pub replay : (Name → Bool) → List (Name × Bool) → Name → Bool
replay held [] n = held n
replay held ((k, down) ∷ ks) n = replay (λ m. if str_eq m k then down else held m) ks n

abbrev pub is_among : List Name → Name → Bool
is_among [] n = false
is_among (k ∷ ks) n = str_eq n k || is_among ks n

-- Whatever is held before, a paste presses V with ControlLeft as the only modifier, and leaves the
-- modifiers and V up and every other key as it was.
pub inject_paste_clean :
    (held : Name → Bool)
    → (before after : List (Name × Bool)) × (inject_paste ≡ before ++ ("V", true) ∷ after)
      × All (λ n. replay held before n ≡ str_eq n "ControlLeft") modifier_keys
      × ((n : Name) → replay held inject_paste n ≡ held n && not (is_among ("V" ∷ modifier_keys) n))
unfolding inject_paste release_all
inject_paste_clean held = (
  release_all modifier_keys ++ ("ControlLeft", true) ∷ [],
  ("V", false) ∷ ("ControlLeft", false) ∷ [],
  refl,
  ground arith,
  λ n. ground arith,
)
