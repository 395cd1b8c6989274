-- ===== src/Stream.antt =====
-- The parts of Go's `io` that the wire formats use: a writer whose connection fails after a number
-- of bytes, and `io.ReadFull` on the bytes that a reader still holds.
use ea_share.Base.{
  ℕ, ◌+◌, ◌-◌, ◌≤◌, ◌<◌, inl, inr, Bool-cases, Bool, true, false, refl, sym, [], append-nil,
  append_assoc, ◌≡◌, ◌⊎◌, Option, none, some, ◌++◌, arith, Bytes, length, take, drop, leb,
  if◌then◌else◌, take-append, drop-append, length-append, length-take, length-drop, ◌==◌,
}

-- `closed` is a failed write; `eof` and `unexpected_eof` are those of `io.ReadFull`.
pub data Error : Type 0 where
  closed eof unexpected_eof too_large bad_json : Error

-- A read or a check that may fail.
pub data Result {ℓ} (Value : Type ℓ) : Type ℓ where
  err : Error → Result Value
  ok : Value → Result Value

abbrev pub ◌>>=◌ {ℓ κ} :
    {Value : Type ℓ} {Next : Type κ} → Result Value → (Value → Result Next) → Result Next
err reason >>= next = err reason
ok value >>= next = next value

infixl 5 ◌>>=◌
-- The connection takes `room` more bytes and then fails.
pub record Writer : Type 0 where
  pub sent : Bytes
  pub room : ℕ

unfoldable pub write : Writer → Bytes → Writer × Option Error
write w p =
    if leb (length p) w.room
    then (record w { sent = w.sent ++ p; room = w.room - length p }, none)
    else (record w { sent = w.sent ++ take w.room p; room = 0 }, some closed)

-- `n` bytes and the rest of the reader.
unfoldable pub read_full : ℕ → Bytes → Result (Bytes × Bytes)
read_full n r =
    if leb n (length r)
    then ok (take n r, drop n r)
    else if length r == 0
    then err eof
    else err unexpected_eof

pub write_fits :
    (w : Writer) (p : Bytes)
    → length p ≤ w.room
    → write w p ≡ (record { sent = w.sent ++ p; room = w.room - length p }, none)
unfolding write
write_fits w p h = ground arith

-- A read of exactly the bytes that were written in front.
pub read_full-append :
    (n : ℕ) (p rest : Bytes) → n ≡ length p → read_full n (p ++ rest) ≡ ok (p, rest)
unfolding read_full
read_full-append n p rest h =
    ground (arith, take-append p rest, drop-append p rest, length-append p rest)

-- A successful read takes exactly `n` bytes.
pub read_full-length :
    (n : ℕ) (r : Bytes) {x : Bytes × Bytes}
    → read_full n r ≡ ok x
    → (length x.0 ≡ n) × (length r ≡ n + length x.1)
unfolding read_full
read_full-length n r h = ground (arith, length-take n r, length-drop n r)

pub >>=-eq-ok {ℓ κ} :
    {Value : Type ℓ} {Next : Type κ} (r : Result Value) (next : Value → Result Next) {n : Next}
    → (r >>= next) ≡ ok n
    → (v : Value) × (r ≡ ok v) × (next v ≡ ok n)
>>=-eq-ok (err reason) next e = cc
>>=-eq-ok (ok value) next e = (value, refl, e)

-- The end of the input, before or inside what was asked for.
abbrev is_eof {ℓ} : {A : Type ℓ} → Result A → Bool
is_eof (ok a) = false
is_eof (err eof) = true
is_eof (err unexpected_eof) = true
is_eof (err _) = false

abbrev pub IsEof {ℓ} : {A : Type ℓ} → Result A → Type 0
IsEof r = is_eof r ≡ true

pub IsEof-bind {ℓ κ} :
    {A : Type ℓ} {B : Type κ} (m : Result A) (f : A → Result B) → IsEof m → IsEof (m >>= f)
IsEof-bind (ok a) f h = cc
IsEof-bind (err eof) f h = refl
IsEof-bind (err unexpected_eof) f h = refl
IsEof-bind (err closed) f h = cc
IsEof-bind (err too_large) f h = cc
IsEof-bind (err bad_json) f h = cc

pub read_full_short : (n : ℕ) (r : Bytes) → length r < n → IsEof (read_full n r)
unfolding read_full
read_full_short n r h = ground arith

-- `w'` has sent what `w` had, and at most `n` bytes more.
abbrev pub Extends : ℕ → Writer → Writer → Type 0
Extends n w w' = (f : Bytes) × (w'.sent ≡ w.sent ++ f) × (length f ≤ n)

pub Extends-same : (n : ℕ) (w : Writer) → Extends n w w
Extends-same n w = ([], sym (append-nil w.sent), omega arith)

pub Extends-then :
    (m n k : ℕ) (u v w : Writer) → Extends m u v → Extends n v w → m + n ≤ k → Extends k u w
Extends-then m n k u v w (f, e, l) (g, d, l') h =
    (f ++ g, cc (append_assoc u.sent f g), omega (arith, length-append f g))

pub Extends-write : (w : Writer) (p : Bytes) → Extends (length p) w (write w p).0
unfolding write
Extends-write w p = elim (Bool-cases (leb (length p) w.room)) [
  | inl h ↦ rw h (p, refl, omega arith)
  | inr h ↦ rw h (take w.room p, refl, omega (arith, length-take w.room p))
]

pub Result-cases {ℓ} :
    {A : Type ℓ} (r : Result A) → ((a : A) × (r ≡ ok a)) ⊎ ((e : Error) × (r ≡ err e))
Result-cases (ok a) = inl (a, refl)
Result-cases (err e) = inr (e, refl)
