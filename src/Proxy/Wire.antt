-- ===== src/Proxy/Wire.antt =====
-- A byte stream as the handshakes of src-tauri/src/remote/proxy.rs use it: what the other side sends until
-- it closes, what was sent to it, and whether it takes more. Actions fail with an error.
use hlem_ssh.Prelude.{
  ℕ, zero, suc, ◌≡◌, refl, ap, Bool, String, [], ◌∷◌, ◌++◌, Option, none, some, length, get_elem?,
  if◌then◌else◌,
}
use hlem_ssh.Prelude.Text.{Bytes}

pub data AppError : Type 0 where
  remote invalid_input : String → AppError

pub data Answer {ℓ} (A : Type ℓ) : Type ℓ where
  ok : A → Answer A
  err : AppError → Answer A

pub record Wire : Type 0 where
  pub incoming : Bytes
  pub sent : Bytes
  pub writable : Bool

abbrev pub Talk {ℓ} : Type ℓ → Type ℓ
Talk A = Wire → Answer A × Wire

-- What follows an answer.
abbrev pub continue {ℓ κ} :
    {A : Type ℓ} {B : Type κ} → (A → Talk B) → Answer A × Wire → Answer B × Wire
continue f (Answer.ok a, w) = f a w
continue f (Answer.err e, w) = (Answer.err e, w)

infixl 5 ◌>>=◌ ◌>>◌
abbrev pub ◌>>=◌ {ℓ κ} : {A : Type ℓ} {B : Type κ} → Talk A → (A → Talk B) → Talk B
m >>= f = λ w. continue f (m w)

abbrev pub ◌>>◌ {ℓ} : {B : Type ℓ} → Talk (Unit {0}) → Talk B → Talk B
m >> k = m >>= λ _. k

abbrev pub give {ℓ} : {A : Type ℓ} → A → Talk A
give a w = (Answer.ok a, w)

abbrev pub fail {ℓ} : {A : Type ℓ} → AppError → Talk A
fail e w = (Answer.err e, w)

abbrev pub require : Bool → AppError → Talk (Unit {0})
require test e w = if test then (Answer.ok tt, w) else (Answer.err e, w)

-- The first `n` bytes and the rest, if there are so many.
abbrev pub push_front : ℕ → Option (Bytes × Bytes) → Option (Bytes × Bytes)
push_front b none = none
push_front b (some (front, rest)) = some (b ∷ front, rest)

abbrev pub split_exact : ℕ → Bytes → Option (Bytes × Bytes)
split_exact zero bytes = some ([], bytes)
split_exact (suc n) [] = none
split_exact (suc n) (b ∷ bytes) = push_front b (split_exact n bytes)

abbrev pub closed_error : AppError
closed_error = AppError.remote "early eof"

abbrev pub received : Wire → Option (Bytes × Bytes) → Answer Bytes × Wire
received w none = (Answer.err closed_error, record w { incoming = [] })
received w (some (front, rest)) = (Answer.ok front, record w { incoming = rest })

-- `read_exact`: the stream's end before `n` bytes is an error.
abbrev pub read_exact : ℕ → Talk Bytes
read_exact n w = received w (split_exact n w.incoming)

abbrev pub write_all : Bytes → Talk (Unit {0})
write_all bytes w =
    if w.writable
    then (Answer.ok tt, record w { sent = w.sent ++ bytes })
    else (Answer.err (AppError.remote "broken pipe"), w)

-- An element of an array that was read whole, so that the index is inside.
abbrev pub or_zero : Option ℕ → ℕ
or_zero none = 0
or_zero (some b) = b

abbrev pub byte : ℕ → Bytes → ℕ
byte i bytes = or_zero (get_elem? bytes i)

pub split_exact-append :
    (front rest : Bytes) → split_exact (length front) (front ++ rest) ≡ some (front, rest)
split_exact-append [] rest = refl
split_exact-append (b ∷ front) rest = ap (push_front b) (split_exact-append front rest)
