-- ===== src/Examples/Listeners.antt =====
-- The accept loop and the channels' addresses at concrete inputs.
use ea_share.Base.{
  Bool, false, ◌||◌, Bool-cases, inl, inr, sym, ℕ, zero, suc, ◌+◌, ◌==◌, ◌≡◌, refl, ap,
  if◌then◌else◌, arith, String, Option, none, some, ℤ, pos, negsuc,
}
use Prim.Native.Char.{Char, code}
use Prim.Native.String.{[], ◌∷◌}
use ea_share.Addr.{Net, NetLaws, clip_addr, mouse_addr, IsAt, channels_meet}

-- Addresses without brackets, and numbers in unary.
unary : ℕ → String
unary zero = ""
unary (suc n) = "a" ∷ unary n

abbrev print : ℤ → String
print (pos n) = unary n
print (negsuc n) = "b" ∷ unary n

size : String → ℕ
size [] = 0
size (c ∷ s) = suc (size s)

parse : String → Option ℤ
parse [] = some (pos 0)
parse (c ∷ s) = if code c == b'b' then some (negsuc (size s)) else some (pos (suc (size s)))

size-unary : (n : ℕ) → size (unary n) ≡ n
unfolding size unary
size-unary zero = refl
size-unary (suc n) = ap suc (size-unary n)

parse-print : (n : ℤ) → parse (print n) ≡ some n
unfolding parse unary size
parse-print (pos zero) = refl
parse-print (pos (suc n)) = ap (λ k. some (pos (suc k))) (size-unary n)
parse-print (negsuc n) = ap (λ k. some (negsuc k)) (size-unary n)

join : String → String → String
join [] port = ":" ∷ port
join (c ∷ host) port = c ∷ join host port

abbrev prepend : Char → Option (String × String) → Option (String × String)
prepend c none = none
prepend c (some (host, port)) = some (c ∷ host, port)

has_colon : String → Bool
has_colon [] = false
has_colon (c ∷ s) = code c == b':' || has_colon s

-- Exactly one colon, as in an address that is not in brackets.
split : String → Option (String × String)
split [] = none
split (c ∷ s) =
    let rest = split s in
    if code c == b':' then (if has_colon s then none else some ("", s)) else prepend c rest

unary-no_colon : (n : ℕ) → has_colon (unary n) ≡ false
unfolding unary has_colon
unary-no_colon zero = refl
unary-no_colon (suc n) = unary-no_colon n

prepend-cases :
    (c : Char) (o : Option (String × String)) (host port : String)
    → prepend c o ≡ some (host, port)
    → (tail : String) × (o ≡ some (tail, port)) × (c ∷ tail ≡ host)
prepend-cases c none host port e = cc
prepend-cases c (some (h, p)) host port e = (h, cc, cc)

empty_host :
    (s host port : String)
    → ◌≡◌ {A = Option (String × String)} (some ("", s)) (some (host, port))
    → has_colon host ≡ false
unfolding has_colon
empty_host s host port e = let p : "" ≡ host = cc in rw (sym p) refl

-- A host from an address has no colon.
split-no_colon : (addr host port : String) → split addr ≡ some (host, port) → has_colon host ≡ false
unfolding split has_colon
split-no_colon [] host port e = cc
split-no_colon (c ∷ s) host port e = elim (Bool-cases (code c == b':')) [
  | inl colon ↦ elim (Bool-cases (has_colon s)) [
    | inl two ↦ let no = rw (colon, two) at e in cc
    | inr one ↦ empty_host s host port (rw (colon, one) at e)
  ]
  | inr other ↦
      let (tail, rest, joined) = prepend-cases c (split s) host port (rw other at e) in
      rw (sym joined, other) (split-no_colon s tail port rest)
]

split-join_lem :
    (host port : String)
    → has_colon host ≡ false
    → has_colon port ≡ false
    → split (join host port) ≡ some (host, port)
unfolding split join has_colon
split-join_lem [] port h p = rw p refl
split-join_lem (c ∷ host) port h p = elim (Bool-cases (code c == b':')) [
  | inl colon ↦ let no = rw colon at h in cc
  | inr other ↦ rw other (ap (prepend c) (split-join_lem host port (rw other at h) p))
]

abbrev net : Net
net = record { split_host_port = split; join_host_port = join; atoi = parse; itoa = print }

net-NetLaws : NetLaws net
net-NetLaws = record {
  split-join = λ addr host port n from small.
      split-join_lem host (unary n) (split-no_colon addr host port from) (unary-no_colon n);
  atoi-itoa = λ n small. parse-print (pos n);
}

abbrev seven : String
seven = print (pos 7)

connected : IsAt net (join "there" seven) "there" (pos 7)
unfolding has_colon
connected = (seven, split-join_lem "there" seven refl (unary-no_colon 7), parse-print (pos 7))

listening : IsAt net (join "" seven) "" (pos 7)
unfolding has_colon
listening = (seven, split-join_lem "" seven refl (unary-no_colon 7), parse-print (pos 7))

channels_meet_example :
    (c c' m m' : String) × (clip_addr net (join "there" seven) ≡ some c)
    × (clip_addr net (join "" seven) ≡ some c')
    × (mouse_addr net (join "there" seven) ≡ some m)
    × (mouse_addr net (join "" seven) ≡ some m')
    × IsAt net c "there" (pos (7 + 1))
    × IsAt net c' "" (pos (7 + 1))
    × IsAt net m "there" (pos (7 + 2))
    × IsAt net m' "" (pos (7 + 2))
channels_meet_example =
    channels_meet net net-NetLaws (join "there" seven) (join "" seven) "there" "" 7 connected
      listening (omega arith)
