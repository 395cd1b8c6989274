-- ===== src/Addr.antt =====
-- internal/clipsync/clipsync.go and internal/mousesync/mousesync.go: the addresses of the clipboard's and the
-- mouse's channel, one and two ports above the main one.
use ea_share.Base.{
  ℕ, ◌+◌, ◌-◌, ◌%◌, ◌^◌, ◌<◌, ◌≡◌, refl, String, Option, none, some, arith, ℤ, pos, negsuc, ◌+ℤ◌,
  ltb, if◌then◌else◌,
}

-- `net.SplitHostPort`, `net.JoinHostPort`, `strconv.Atoi` and `strconv.Itoa`.
pub record Net : Type 0 where
  pub split_host_port : String → Option (String × String)
  pub join_host_port : String → String → String
  pub atoi : String → Option ℤ
  pub itoa : ℤ → String

-- What is documented of them, at the ports of an int: a printed number is read, and a host that an address was
-- split into is split off again after it was joined with a printed number.
pub record NetLaws (net : Net) : Type 0 where
  pub split-join :
      (addr host port : String) (n : ℕ)
      → net.split_host_port addr ≡ some (host, port)
      → n < 2 ^ 63
      → net.split_host_port (net.join_host_port host (net.itoa (pos n)))
        ≡ some (host, net.itoa (pos n))
  pub atoi-itoa : (n : ℕ) → n < 2 ^ 63 → net.atoi (net.itoa (pos n)) ≡ some (pos n)

-- `int`, of 64 bits.
abbrev uint64 : ℤ → ℕ
uint64 (pos n) = n % 2 ^ 64
uint64 (negsuc n) = 2 ^ 64 - 1 - n % 2 ^ 64

abbrev int64 : ℕ → ℤ
int64 u = if ltb u (2 ^ 63) then pos u else negsuc (2 ^ 64 - 1 - u)

add64 : ℤ → ℤ → ℤ
add64 a b = int64 (uint64 (a +ℤ b))

module _ (net : Net) where
  shifted : ℕ → String × String → Option String
  unfolding add64
  shifted k (host, port_str) = elim (net.atoi port_str) [
    | none ↦ none
    | some port ↦ some (net.join_host_port host (net.itoa (add64 port (pos k))))
  ]

  -- `none` is an error.
  unfoldable pub clip_addr : String → Option String
  unfolding shifted
  clip_addr addr = elim (net.split_host_port addr) [ none ↦ none | some parts ↦ shifted 1 parts ]

  unfoldable pub mouse_addr : String → Option String
  unfolding shifted
  mouse_addr addr = elim (net.split_host_port addr) [ none ↦ none | some parts ↦ shifted 2 parts ]

  -- An address names a host and a port.
  abbrev pub IsAt : String → String → ℤ → Type 0
  IsAt addr host port =
      (text : String) × (net.split_host_port addr ≡ some (host, text)) × (net.atoi text ≡ some port)

  module _ (laws : NetLaws net) where
    shifted-IsAt :
        (k n : ℕ) (addr host text : String)
        → net.split_host_port addr ≡ some (host, text)
        → net.atoi text ≡ some (pos n)
        → n + k < 2 ^ 63
        → (a : String) × (shifted k (host, text) ≡ some a) × IsAt a host (pos (n + k))
    unfolding shifted add64 ◌+ℤ◌
    shifted-IsAt k n addr host text from e small =
        let sum : add64 (pos n) (pos k) ≡ pos (n + k) = ground arith in
        (
          net.join_host_port host (net.itoa (pos (n + k))),
          rw (e, shifted, sum) refl,
          (
            net.itoa (pos (n + k)),
            laws.split-join addr host text (n + k) from small,
            laws.atoi-itoa (n + k) small,
          ),
        )

    -- Where the controller connects to a port and the target listens on it, whatever the two call their
    -- hosts, the controller dials the clipboard one port and the mouse two ports above it at its host, and the
    -- target listens there. The port leaves room in an int.
    pub channels_meet :
        (addr listen host own : String) (n : ℕ)
        → IsAt addr host (pos n)
        → IsAt listen own (pos n)
        → n + 2 < 2 ^ 63
        → (c c' m m' : String) × (clip_addr addr ≡ some c)
          × (clip_addr listen ≡ some c')
          × (mouse_addr addr ≡ some m)
          × (mouse_addr listen ≡ some m')
          × IsAt c host (pos (n + 1))
          × IsAt c' own (pos (n + 1))
          × IsAt m host (pos (n + 2))
          × IsAt m' own (pos (n + 2))
    unfolding clip_addr mouse_addr
    channels_meet addr listen host own n (text, split, port) (text', split', port') small =
        let (c, ce, ca) = shifted-IsAt 1 n addr host text split port (omega arith) in
        let (c', ce', ca') = shifted-IsAt 1 n listen own text' split' port' (omega arith) in
        let (m, me, ma) = shifted-IsAt 2 n addr host text split port small in
        let (m', me', ma') = shifted-IsAt 2 n listen own text' split' port' small in
        (
          c,
          c',
          m,
          m',
          rw (split, clip_addr) ce,
          rw (split', clip_addr) ce',
          rw (split, mouse_addr) me,
          rw (split', mouse_addr) me',
          ca,
          ca',
          ma,
          ma',
        )
